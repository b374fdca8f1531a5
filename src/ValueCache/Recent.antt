-- ===== src/ValueCache/Recent.antt =====
-- cache_store.py: the capped lists against the whole history of uses.
use ndif.Prelude.{
  ℕ, zero, suc, ◌≡◌, refl, ap, sym, ◌∙◌, Bool, false, not, ◌&&◌, Option, none, some, List, [], ◌∷◌,
  take, keep, among, among-keep, ◌==◌, if◌then◌else◌, Bool-cases, Option-cases, inl, inr, arith,
}
use ndif.ValueCache.{
  max_entries_per_field, Field, repo_id, task, actor_class, envoy_class, field_index, Values,
  SpecEntry, bump, add_value, add_entry, add_many,
}

-- Each value where it stands first.
unfoldable pub distinct : List ℕ → List ℕ
distinct [] = []
distinct (x ∷ history) = x ∷ keep (λ v. not (v == x)) (distinct history)

-- The most recent distinct values of a history, the newest use first.
abbrev pub recent : List ℕ → List ℕ
recent history = take max_entries_per_field (distinct history)

-- The history of a field, with the uses of further entries.
abbrev pub used : Option ℕ → List ℕ → List ℕ
used none history = history
used (some value) history = value ∷ history

unfoldable pub logged : Field → List SpecEntry → List ℕ → List ℕ
logged field [] history = history
logged field (entry ∷ entries) history = logged field entries (used (entry field) history)

abbrev NoRepeat : List ℕ → Type 0
NoRepeat [] = Unit {0}
NoRepeat (x ∷ xs) = (among x xs ≡ false) × NoRepeat xs

keep-NoRepeat : (p : ℕ → Bool) (xs : List ℕ) → NoRepeat xs → NoRepeat (keep p xs)
unfolding keep
keep-NoRepeat p [] h = tt
keep-NoRepeat p (x ∷ xs) h = elim (Bool-cases (p x)) [
  | inl e ↦
      let gone = among-keep x p xs ∙ ap (λ b. b && p x) h.0 in rw e (gone, keep-NoRepeat p xs h.1)
  | inr e ↦ rw e (keep-NoRepeat p xs h.1)
]

not_itself : (x : ℕ) (b : Bool) → b && not (x == x) ≡ false
not_itself x b = ground arith

distinct-NoRepeat : (history : List ℕ) → NoRepeat (distinct history)
unfolding distinct
distinct-NoRepeat [] = tt
distinct-NoRepeat (x ∷ history) = (
  among-keep x (λ v. not (v == x)) (distinct history) ∙ not_itself x (among x (distinct history)),
  keep-NoRepeat (λ v. not (v == x)) (distinct history) (distinct-NoRepeat history),
)

keep_absent : (x : ℕ) (xs : List ℕ) → among x xs ≡ false → keep (λ v. not (v == x)) xs ≡ xs
unfolding keep among
keep_absent x [] h = refl
keep_absent x (y ∷ ys) h = ground (arith, keep_absent x ys)

among-take : (x n : ℕ) (xs : List ℕ) → among x xs ≡ false → among x (take n xs) ≡ false
unfolding among
among-take x zero xs h = refl
among-take x (suc n) [] h = refl
among-take x (suc n) (y ∷ ys) h = ground (arith, among-take x n ys)

take-take : (n : ℕ) (xs : List ℕ) → take n (take n xs) ≡ take n xs
take-take zero xs = refl
take-take (suc n) [] = refl
take-take (suc n) (x ∷ xs) = λ i. x ∷ take-take n xs i

take-keep_next :
    (n x y : ℕ) (ys : List ℕ)
    → ((m : ℕ)
        → take m (keep (λ v. not (v == x)) (take (suc m) ys))
          ≡ take m (keep (λ v. not (v == x)) ys))
    → take n (y ∷ keep (λ v. not (v == x)) (take n ys)) ≡ take n (y ∷ keep (λ v. not (v == x)) ys)
take-keep_next zero x y ys h = refl
take-keep_next (suc n) x y ys h = λ i. y ∷ h n i

-- What the cap cut off before a bump would be cut off after it.
take-keep :
    (n x : ℕ) (xs : List ℕ)
    → NoRepeat xs
    → take n (keep (λ v. not (v == x)) (take (suc n) xs)) ≡ take n (keep (λ v. not (v == x)) xs)
unfolding keep
take-keep n x [] h = refl
take-keep n x (y ∷ ys) h = elim (Bool-cases (y == x)) [
  | inl e ↦
      let same : y ≡ x = ground arith in
      let absent : among x ys ≡ false = rw (← same) h.0 in
      rw (e, keep_absent x (take n ys) (among-take x n ys absent), keep_absent x ys absent)
        (take-take n ys)
  | inr e ↦ rw e (take-keep_next n x y ys (λ m. take-keep m x ys h.1))
]

bump-recent :
    (history : List ℕ) (value : ℕ) → bump (recent history) value ≡ recent (value ∷ history)
unfolding bump distinct
bump-recent history value =
    ap (λ t. value ∷ t) (take-keep 199 value (distinct history) (distinct-NoRepeat history))

abbrev bumped : Option ℕ → List ℕ → List ℕ
bumped none values = values
bumped (some value) values = bump values value

add_value-at :
    (field other : Field) (entry : SpecEntry) (values_of : Values)
    → (if field_index field == field_index other then values_of field else values_of other)
      ≡ values_of other
    → add_value field entry values_of other ≡ (
        if field_index field == field_index other
        then bumped (entry field) (values_of field)
        else values_of other)
unfolding add_value
add_value-at field other entry values_of same = elim (Option-cases (entry field)) [
  | inl e ↦ rw (add_value, e) (sym same)
  | inr (v, e) ↦ rw (add_value, e) refl
]

-- Each field is bumped with its own value.
add_entry-at :
    (entry : SpecEntry) (values_of : Values) (field : Field)
    → add_entry entry values_of field ≡ bumped (entry field) (values_of field)
unfolding add_entry
add_entry-at entry values_of repo_id =
    let d1 = add_value repo_id entry values_of in
    let d2 = add_value task entry d1 in
    let d3 = add_value actor_class entry d2 in
    add_value-at envoy_class repo_id entry d3 refl
    ∙ (add_value-at actor_class repo_id entry d2 refl
        ∙ (add_value-at task repo_id entry d1 refl
            ∙ add_value-at repo_id repo_id entry values_of refl))
add_entry-at entry values_of task =
    let d1 = add_value repo_id entry values_of in
    let d2 = add_value task entry d1 in
    let d3 = add_value actor_class entry d2 in
    add_value-at envoy_class task entry d3 refl
    ∙ (add_value-at actor_class task entry d2 refl
        ∙ (add_value-at task task entry d1 refl
            ∙ ap (bumped (entry task)) (add_value-at repo_id task entry values_of refl)))
add_entry-at entry values_of actor_class =
    let d1 = add_value repo_id entry values_of in
    let d2 = add_value task entry d1 in
    let d3 = add_value actor_class entry d2 in
    add_value-at envoy_class actor_class entry d3 refl
    ∙ (add_value-at actor_class actor_class entry d2 refl
        ∙ ap (bumped (entry actor_class)) (
            add_value-at task actor_class entry d1 refl
            ∙ add_value-at repo_id actor_class entry values_of refl))
add_entry-at entry values_of envoy_class =
    let d1 = add_value repo_id entry values_of in
    let d2 = add_value task entry d1 in
    let d3 = add_value actor_class entry d2 in
    add_value-at envoy_class envoy_class entry d3 refl
    ∙ ap (bumped (entry envoy_class)) (
        add_value-at actor_class envoy_class entry d2 refl
        ∙ (add_value-at task envoy_class entry d1 refl
            ∙ add_value-at repo_id envoy_class entry values_of refl))

bumped-recent :
    (value : Option ℕ) (history : List ℕ)
    → bumped value (recent history) ≡ recent (used value history)
bumped-recent none history = refl
bumped-recent (some value) history = bump-recent history value

-- The capped lists lose nothing that the whole history would show: after any entries, each field holds
-- the most recent 200 distinct values of its whole history of uses, the most recent first, if it did so
-- before, as the empty lists of a new file do.
pub add_many-recent :
    (entries : List SpecEntry) (values_of : Values) (field : Field) (history : List ℕ)
    → values_of field ≡ recent history
    → add_many entries values_of field ≡ recent (logged field entries history)
unfolding add_many logged
add_many-recent [] values_of field history h = h
add_many-recent (entry ∷ entries) values_of field history h =
    add_many-recent entries (add_entry entry values_of) field (used (entry field) history) (
      add_entry-at entry values_of field
      ∙ (ap (bumped (entry field)) h ∙ bumped-recent (entry field) history))
