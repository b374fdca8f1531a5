-- ===== src/ValueCache.antt =====
-- services/dashboard/backend/cache_store.py: the values offered again for a deploy, per field in
-- most-recently-used order. The file is a function of the fields; one call under its lock is one
-- function, and texts are numbers.
pub mod Recent
use ndif.Prelude.{
  ℕ, Bool, true, false, not, Option, none, some, List, [], ◌∷◌, take, keep, ◌==◌, if◌then◌else◌,
}

abbrev pub max_entries_per_field : ℕ
max_entries_per_field = 200

-- `FIELDS`
pub data Field : Type 0 where
  repo_id task actor_class envoy_class : Field

abbrev pub field_index : Field → ℕ
field_index repo_id = 0
field_index task = 1
field_index actor_class = 2
field_index envoy_class = 3

abbrev pub Values : Type 0
Values = Field → List ℕ

-- An entry's values; `none` for one that is falsy or no text.
abbrev pub SpecEntry : Type 0
SpecEntry = Field → Option ℕ

-- `_bump`
unfoldable pub bump : List ℕ → ℕ → List ℕ
bump values new = take max_entries_per_field (new ∷ keep (λ v. not (v == new)) values)

-- `data[field] = values`
abbrev pub write : Field → List ℕ → Values → Values
write field values values_of other =
    if field_index field == field_index other then values else values_of other

-- One round of the inner loop.
unfoldable pub add_value : Field → SpecEntry → Values → Values
add_value field entry values_of = elim (entry field) [
  | none ↦ values_of
  | some value ↦ write field (bump (values_of field) value) values_of
]

unfoldable pub add_entry : SpecEntry → Values → Values
add_entry entry values_of =
    add_value envoy_class entry
      (add_value actor_class entry (add_value task entry (add_value repo_id entry values_of)))

unfoldable pub add_many : List SpecEntry → Values → Values
add_many [] values_of = values_of
add_many (entry ∷ entries) values_of = add_many entries (add_entry entry values_of)
