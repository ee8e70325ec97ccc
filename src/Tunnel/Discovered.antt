-- ===== src/Tunnel/Discovered.antt =====
-- What discovery lists.

use mathlib.Core.Path.{subst}
use node_shell.Std.Strings.{trim_space}
use node_shell.Base.{
  ℕ, ◌≤◌, ◌≡◌, refl, sym, ◌∙◌, inl, inr, String, Bool, not, ◌&&◌, Option, none, some, List, [], ◌∷◌,
  ◌==◌, arith, eq_iff, ℤ, pos, negsuc, Bool-cases, if_cases,
}
use node_shell.Tunnel.Address.{split_listen_addr, normalize_bind}
use node_shell.Tunnel.Parse.{
  Listener, lines, parse_line, before, listed, collect, add_new, place, sort, parse_listeners,
  shown, listener_at, listener_of, is_system_port, is_listen_line, fields, local_address_field,
}
use node_shell.Tunnel.Given.{
  before_total, sort-listed, parse_listeners-given, ascending, gives, given,
}

-- The head of a list comes behind a listener.
abbrev head_after : Listener → List Listener → Bool
unfolding before
head_after l [] = Bool.true
head_after l (x ∷ xs) = before l x

ascending-cons :
    (x : Listener) (xs : List Listener) → ascending (x ∷ xs) ≡ (head_after x xs && ascending xs)
unfolding ascending head_after
ascending-cons x [] = refl
ascending-cons x (y ∷ xs) = refl

place-head :
    (x l : Listener) (xs : List Listener)
    → before x l ≡ Bool.true
    → head_after x xs ≡ Bool.true
    → head_after x (place l xs) ≡ Bool.true
unfolding place head_after
place-head x l [] b h = b
place-head x l (y ∷ xs) b h =
    if_cases (λ (ys : List Listener). head_after x ys ≡ Bool.true) (before l y) _ _ (λ e. b)
      (λ e. h)

place-ascending :
    (l : Listener) (xs : List Listener)
    → listed l xs ≡ Bool.false
    → ascending xs ≡ Bool.true
    → ascending (place l xs) ≡ Bool.true
unfolding place ascending listed
place-ascending l [] n a = refl
place-ascending l (x ∷ xs) n a =
    let parts = ascending-cons x xs in
    if_cases (λ (ys : List Listener). ascending ys ≡ Bool.true) (before l x) _ _ (λ b. ground arith)
      (λ b.
        let front =
          place-head x l xs
            (before_total l x (ground (arith, eq_iff l.bind x.bind, eq_iff x.bind l.bind)) b)
            (ground arith) in
        let back = place-ascending l xs (ground arith) (ground arith) in
        ascending-cons x (place l xs) ∙ ground arith)

-- No listener stands twice.
unique : List Listener → Bool
unfolding listed
unique [] = Bool.true
unique (l ∷ ls) = not (listed l ls) && unique ls

sort-ascending : (xs : List Listener) → unique xs ≡ Bool.true → ascending (sort xs) ≡ Bool.true
unfolding sort unique ascending
sort-ascending [] u = refl
sort-ascending (x ∷ xs) u =
    place-ascending x (sort xs) (sort-listed x xs ∙ ground arith) (sort-ascending xs (ground arith))

added-unique :
    (o : Option Listener) (found : List Listener)
    → unique found ≡ Bool.true
    → unique (add_new o found) ≡ Bool.true
unfolding unique
added-unique none found u = u
added-unique (some l) found u = ground arith

collect-unique :
    (rest : List String) (found : List Listener)
    → unique found ≡ Bool.true
    → unique (collect rest found) ≡ Bool.true
unfolding collect
collect-unique [] found u = u
collect-unique (line ∷ rest) found u =
    collect-unique rest (add_new (parse_line line) found) (added-unique (parse_line line) found u)

-- Discovery lists the listeners in order, by port and then by address, none twice.
pub parse_listeners-ascending : (out : String) → ascending (parse_listeners out) ≡ Bool.true
unfolding parse_listeners unique
parse_listeners-ascending out =
    sort-ascending (collect (lines out) []) (collect-unique (lines out) [] refl)

-- A port that may be listed.
abbrev pub Offered : ℕ → Type 0
Offered port = (1 ≤ port) × (port ≤ 65535) × (is_system_port port ≡ Bool.false)

shown-Offered : (i : ℤ) (n : ℕ) → shown i ≡ some n → Offered n
shown-Offered (pos k) n e = ground arith
shown-Offered (negsuc k) n e = absurd (cc e)

given_of-Offered :
    (l : Listener) (o : Option (String × ℤ)) → gives l (listener_of o) ≡ Bool.true → Offered l.port
given_of-Offered l none e = absurd (ground arith)
given_of-Offered l (some (bind, i)) e = by_port (shown i) (shown-Offered i) e
  where
    by_port :
        (o : Option ℕ)
        → ((n : ℕ) → o ≡ some n → Offered n)
        → gives l (listener_at (normalize_bind bind) o) ≡ Bool.true
        → Offered l.port
    by_port none f g = absurd (ground arith)
    by_port (some n) f g =
        subst Offered (ground (arith, eq_iff (normalize_bind bind) l.bind)) (f n refl)

parse_line-Offered :
    (l : Listener) (line : String) → gives l (parse_line line) ≡ Bool.true → Offered l.port
unfolding parse_line
parse_line-Offered l text =
    let line = trim_space text in
    let P : Option Listener → Type 0 = λ o. gives l o ≡ Bool.true → Offered l.port in
    if_cases P (line == "") _ _ (λ e g. absurd (ground arith))
      (λ e.
        if_cases P (not (is_listen_line (fields line))) _ _ (λ k g. absurd (ground arith))
          (λ k g. given_of-Offered l (split_listen_addr (local_address_field (fields line))) g))

given-Offered : (l : Listener) (rest : List String) → given l rest ≡ Bool.true → Offered l.port
unfolding given
given-Offered l [] g = absurd (ground arith)
given-Offered l (line ∷ rest) g = elim (Bool-cases (gives l (parse_line line))) [
  | inl here ↦ parse_line-Offered l line here
  | inr later ↦ given-Offered l rest (ground arith)
]

-- Discovery lists exactly the listeners that the lines of the output give, in order, by port and then by
-- address, none twice, and each with a port between 1 and 65535 that is no system port.
pub parse_listeners-lists :
    (out : String)
    → (ascending (parse_listeners out) ≡ Bool.true)
      × ((l : Listener) → listed l (parse_listeners out) ≡ given l (lines out))
      × ((l : Listener) → listed l (parse_listeners out) ≡ Bool.true → Offered l.port)
parse_listeners-lists out = (
  parse_listeners-ascending out,
  λ l. parse_listeners-given l out,
  λ l e. given-Offered l (lines out) (sym (parse_listeners-given l out) ∙ e),
)
