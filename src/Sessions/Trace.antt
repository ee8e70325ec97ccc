-- ===== src/Sessions/Trace.antt =====
-- The trace of the events, one event at a time.
use mathlib.Core.List.{append-nil, append_assoc}
use node_shell.Base.{
  ◌≡◌, sym, ap, ◌∙◌, String, true, false, not, ◌&&◌, ◌||◌, List, [], ◌∷◌, ◌++◌, arith,
}
use node_shell.Sessions.State.{Event}
use node_shell.Sessions.World.{
  about, closing_of, error_of, has_closed, none_about, silent_after, errors_of,
}

pub has_closed-append :
    (id : String) (es : List Event) (e : Event)
    → has_closed id (es ++ e ∷ []) ≡ (has_closed id es || closing_of id e)
unfolding has_closed
has_closed-append id [] e = ground arith
has_closed-append id (x ∷ es) e = ground (arith, has_closed-append id es e)

none_about-append :
    (id : String) (es : List Event) (e : Event)
    → none_about id (es ++ e ∷ []) ≡ (none_about id es && not (about id e))
unfolding none_about
none_about-append id [] e = ground arith
none_about-append id (x ∷ es) e = ground (arith, none_about-append id es e)

pub silent_after-append :
    (id : String) (es : List Event) (e : Event)
    → silent_after id es ≡ true
    → (has_closed id es && about id e) ≡ false
    → silent_after id (es ++ e ∷ []) ≡ true
unfolding silent_after has_closed none_about
silent_after-append id [] e s h = ground arith
silent_after-append id (x ∷ es) e s h =
    ground (arith, silent_after-append id es e, none_about-append id es e)

pub errors_of-append :
    (id : String) (es : List Event) (e : Event)
    → errors_of id (es ++ e ∷ []) ≡ errors_of id es ++ error_of id e
unfolding errors_of
errors_of-append id [] e = append-nil (error_of id e)
errors_of-append id (x ∷ es) e =
    ap (λ t. error_of id x ++ t) (errors_of-append id es e)
    ∙ sym (append_assoc (error_of id x) (errors_of id es) (error_of id e))
