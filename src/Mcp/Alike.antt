-- ===== src/Mcp/Alike.antt =====
-- The sections that leave the sessions and the sets of the runtime as they are.
use node_shell.Base.{
  ℕ, ◌≡◌, refl, ◌∙◌, String, true, List, [], ◌∷◌, Option, none, some, lookup, insert, is_some,
  if◌then◌else◌, arith, eq_iff, if_cases, lookup-insert,
}
use node_shell.Mcp.State.{Meta, Runtime}
use node_shell.Mcp.Sections.{
  Ticket, begin_found, started, finish_found, ended, is_idle, mark_found, mark_reaping, reap_loop,
}

-- The sessions and the sets of the runtime are as they were.
pub record Alike (r r' : Runtime) : Type 0 where
  pub found : (id : String) → is_some (lookup id r'.meta) ≡ is_some (lookup id r.meta)
  pub closing : (id : String) → r'.local_closing id ≡ r.local_closing id
  pub tombs : (id : String) → r'.tombstones id ≡ r.tombstones id

pub Alike-refl : (r : Runtime) → Alike r r
Alike-refl r = record { found = λ id. refl; closing = λ id. refl; tombs = λ id. refl }

pub Alike-trans : (r r' r'' : Runtime) → Alike r r' → Alike r' r'' → Alike r r''
Alike-trans r r' r'' h h' = record {
  found = λ id. h'.found id ∙ h.found id;
  closing = λ id. h'.closing id ∙ h.closing id;
  tombs = λ id. h'.tombs id ∙ h.tombs id;
}

pub replaced-Alike :
    (r : Runtime) (id : String) (m m' : Meta)
    → lookup id r.meta ≡ some m
    → Alike r (record r { meta = insert id m' r.meta })
replaced-Alike r id m m' e = record {
  found = λ j. ground (arith, lookup-insert id j m' r.meta, eq_iff id j);
  closing = λ j. refl;
  tombs = λ j. refl;
}

pub begin_found-Alike :
    (id : String) (now : ℕ) (r : Runtime) (o : Option Meta)
    → lookup id r.meta ≡ o
    → Alike r (begin_found id now r o).0
begin_found-Alike id now r none e = Alike-refl r
begin_found-Alike id now r (some m) e =
    if_cases (λ (p : Runtime × Ticket). Alike r p.0) m.reaping _ _ (λ x. Alike-refl r)
      (λ x. replaced-Alike r id m (started now m) e)

pub finish_found-Alike :
    (id : String) (now : ℕ) (r : Runtime) (o : Option Meta)
    → lookup id r.meta ≡ o
    → Alike r (finish_found id now r o)
finish_found-Alike id now r none e = Alike-refl r
finish_found-Alike id now r (some m) e = replaced-Alike r id m (ended now m) e

pub mark_found-Alike :
    (id : String) (r : Runtime) (o : Option Meta)
    → lookup id r.meta ≡ o
    → Alike r (mark_found id r o)
mark_found-Alike id r none e = Alike-refl r
mark_found-Alike id r (some m) e = replaced-Alike r id m (record m { reaping = true }) e

pub reap_loop-Alike : (now : ℕ) (ids : List String) (r : Runtime) → Alike r (reap_loop now ids r).0
unfolding reap_loop mark_reaping
reap_loop-Alike now [] r = Alike-refl r
reap_loop-Alike now (id ∷ ids) r =
    let idle = is_idle now r.idle_timeout (lookup id r.meta) in
    let r' = if idle then mark_reaping id r else r in
    Alike-trans r r' (reap_loop now ids r').0
      (if_cases (λ (s : Runtime). Alike r s) idle _ _
        (λ x. mark_found-Alike id r (lookup id r.meta) refl) (λ x. Alike-refl r))
      (reap_loop-Alike now ids r')
