-- ===== src/Settings/Listed.antt =====
-- What the list of the models of a provider holds.
use node_shell.Base.{
  ℕ, suc, ◌+◌, ◌≤◌, ◌<◌, ltb, leb, length, contains, distinct, All, String, true, false, ◌||◌, List,
  [], ◌∷◌, ◌==◌, arith, eq_iff, ◌≡◌, refl, inl, inr, Bool-cases, if_cases,
}
use node_shell.Std.Strings.{trim_space, byte_length}
use node_shell.Std.Strings.Trims.{trim_space_twice}
use node_shell.Settings.Providers.{normalize_model_id, keep_models, normalize_model_list}

abbrev pub IsShort : ℕ → String → Type 0
IsShort limit s = (byte_length s ≤ limit) × ((s == "") ≡ false)

-- A model id that is kept as it is.
abbrev pub IsModel : String → Type 0
IsModel s = IsShort 512 s × (trim_space s ≡ s)

abbrev pub IsModels : List String → Type 0
IsModels ms = (distinct ms ≡ true) × (length ms ≤ 32) × All IsModel ms

pub contains_cons :
    (k id : String) (ids : List String) → contains k ids ≡ true → contains k (id ∷ ids) ≡ true
unfolding contains
contains_cons k id ids h = ground (arith, h)

pub contains_head : (id : String) (ids : List String) → contains id (id ∷ ids) ≡ true
unfolding contains
contains_head id ids = ground (arith, eq_iff id id)

-- An id that is not among the seen is none of the seen.
pub new_id :
    (k id : String) (seen ids : List String)
    → contains k seen ≡ true
    → contains id seen ≡ false
    → contains k ids ≡ false
    → contains k (id ∷ ids) ≡ false
new_id k id seen ids h f g = elim (Bool-cases (id == k)) [
  | inl e ↦ let same : id ≡ k = (eq_iff id k).0 e in cc
  | inr e ↦ unfold contains in rw (e, g) refl
]

pub distinct_cons :
    (id : String) (ids : List String)
    → contains id ids ≡ false
    → distinct ids ≡ true
    → distinct (id ∷ ids) ≡ true
unfolding distinct
distinct_cons id ids c d = rw (c, d) refl

-- The three ends of one turn of the loop: the id is passed over, it is the last, or it is kept.
keep_models-cases {κ} :
    (P : List String → Type κ) (seen : List String) (raw : String) (values : List String)
    → P (keep_models seen values)
    → ((normalize_model_id raw == "") ≡ false
        → contains (normalize_model_id raw) seen ≡ false
        → P (normalize_model_id raw ∷ []))
    → ((normalize_model_id raw == "") ≡ false
        → contains (normalize_model_id raw) seen ≡ false
        → leb 32 (length (normalize_model_id raw ∷ seen)) ≡ false
        → P (normalize_model_id raw ∷ keep_models (normalize_model_id raw ∷ seen) values))
    → P (keep_models seen (raw ∷ values))
unfolding keep_models
keep_models-cases P seen raw values skip last more =
    if_cases P _ _ _ (λ e. skip)
      (λ e. if_cases P _ _ _ (λ f. skip) (λ f. if_cases P _ _ _ (λ g. last e f) (more e f)))

-- A kept id is new.
keep_models-contains :
    (k : String) (seen values : List String)
    → contains k seen ≡ true
    → contains k (keep_models seen values) ≡ false
keep_models-contains k seen [] h = unfold keep_models contains in refl
keep_models-contains k seen (raw ∷ values) h =
    keep_models-cases (λ ms. contains k ms ≡ false) seen raw values
      (keep_models-contains k seen values h)
      (λ e f. new_id k (normalize_model_id raw) seen [] h f (unfold contains in refl))
      (λ e f g.
        new_id k (normalize_model_id raw) seen (keep_models (normalize_model_id raw ∷ seen) values)
          h f
          (keep_models-contains k (normalize_model_id raw ∷ seen) values
            (contains_cons k (normalize_model_id raw) seen h)))

keep_models-distinct : (seen values : List String) → distinct (keep_models seen values) ≡ true
keep_models-distinct seen [] = unfold keep_models distinct in refl
keep_models-distinct seen (raw ∷ values) =
    keep_models-cases (λ ms. distinct ms ≡ true) seen raw values (keep_models-distinct seen values)
      (λ e f. unfold distinct contains in refl)
      (λ e f g.
        distinct_cons (normalize_model_id raw) (keep_models (normalize_model_id raw ∷ seen) values)
          (keep_models-contains (normalize_model_id raw) (normalize_model_id raw ∷ seen) values
            (contains_head (normalize_model_id raw) seen))
          (keep_models-distinct (normalize_model_id raw ∷ seen) values))

keep_models-length :
    (seen values : List String)
    → length seen < 32
    → length (keep_models seen values) + length seen ≤ 32
keep_models-length seen [] h = unfold keep_models in omega (arith, h)
keep_models-length seen (raw ∷ values) h =
    keep_models-cases (λ ms. length ms + length seen ≤ 32) seen raw values
      (keep_models-length seen values h) (λ e f. omega (arith, h))
      (λ e f g.
        let l : suc (length seen) < 32 = ground (arith, g) in
        omega (arith, keep_models-length (normalize_model_id raw ∷ seen) values l))

pub short_lem :
    (limit : ℕ) (t : String) → (t == "" || ltb limit (byte_length t)) ≡ false → IsShort limit t
short_lem limit t h = ground (arith, h)

normalize_model_id-IsModel :
    (raw : String) → (normalize_model_id raw == "") ≡ false → IsModel (normalize_model_id raw)
unfolding normalize_model_id
normalize_model_id-IsModel raw =
    if_cases (λ s. (s == "") ≡ false → IsModel s)
      (trim_space raw == "" || ltb 512 (byte_length (trim_space raw))) "" (trim_space raw)
      (λ e f. absurd (ground (arith, f)))
      (λ e f. (short_lem 512 (trim_space raw) e, trim_space_twice raw))

keep_models-All : (seen values : List String) → All IsModel (keep_models seen values)
keep_models-All seen [] = unfold keep_models in tt
keep_models-All seen (raw ∷ values) =
    keep_models-cases (All IsModel) seen raw values (keep_models-All seen values)
      (λ e f. (normalize_model_id-IsModel raw e, tt))
      (λ e f g.
        (normalize_model_id-IsModel raw e, keep_models-All (normalize_model_id raw ∷ seen) values))

pub normalize_model_list-IsModels : (values : List String) → IsModels (normalize_model_list values)
unfolding normalize_model_list
normalize_model_list-IsModels values = (
  keep_models-distinct [] values,
  omega (arith, keep_models-length [] values (omega arith)),
  keep_models-All [] values,
)
