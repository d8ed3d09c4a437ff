-- ===== src/Grpc/Value/Record/Laws.antt =====
-- Taking a field from a record, and adding one to a builder, daml-grpc/src/data/value/record.rs and
-- record_build.rs.
use rust_daml_bindings.Base.{
  ℕ, suc, String, Bool, true, false, Option, none, some, ok, err, str_eq, str_eq_iff, if◌then◌else◌,
  ◌≡◌, ◌≢◌, refl, ◌⊎◌, inl, inr, Bool-cases, ok_or, ok_part, ok_part-ok_or, sym, ◌∙◌,
}
use rust_daml_bindings.Grpc.Error.{unknown_field}
use rust_daml_bindings.Grpc.External.{External}
use rust_daml_bindings.Grpc.Value.{
  DamlValue, DamlFields, DamlRecord, no_field, field_then, record_of,
}
use rust_daml_bindings.Grpc.Value.Record.{
  has_label, find_field, field, position, remove, take_field, push, DamlRecordBuilder, add_field,
  build,
}

has_label-other :
    (l m : String) (o : Option String) → has_label l o ≡ true → m ≢ l → has_label m o ≡ false
has_label-other l m none h n = refl
has_label-other l m (some k) h n = elim (Bool-cases (str_eq k m)) [
  | inr e ↦ e
  | inl e ↦ elim (n (sym ((str_eq_iff k m).0 e) ∙ (str_eq_iff k l).0 h)) [ ]
]

module _ {x : External} where
  -- The field is not there; or it is at a position, where `remove` leaves the other fields.
  abbrev IsTaken : String → DamlFields x → Type 0
  IsTaken l fs =
      (position l fs ≡ none) × (find_field l fs ≡ none)
      ⊎ ((n : ℕ) × (v : DamlValue x) × (gs : DamlFields x) × (position l fs ≡ some n)
          × (remove n fs ≡ some (v, gs))
          × (find_field l fs ≡ some v)
          × ((m : String) → m ≢ l → find_field m gs ≡ find_field m fs))

  IsTaken_lem : (l : String) (fs : DamlFields x) → IsTaken l fs
  unfolding position find_field remove
  IsTaken_lem l no_field = inl (refl, refl)
  IsTaken_lem l (field_then k v fs) = elim (Bool-cases (has_label l k)) [
    | inl e ↦ inr (
      0,
      v,
      fs,
      rw (position, e) refl,
      refl,
      rw (find_field, e) refl,
      λ m n. rw (has_label-other l m k e n) refl,
    )
    | inr e ↦ elim (IsTaken_lem l fs) [
      | inl (p, f) ↦ inl (rw (e, p) refl, rw (e, f) refl)
      | inr (n, w, gs, p, r, f, others) ↦ inr (
        suc n,
        w,
        field_then k v gs,
        rw (e, p) refl,
        rw r refl,
        rw (e, f) refl,
        λ m d. rw (others m d) refl,
      )
    ]
  ]

  -- The field that `field` finds is the one that is taken, the record that is left has each other
  -- label as before, and nothing panics; where `field` fails the taking fails alike.
  pub take_field-cases :
      (r : DamlRecord x) (l : String)
      → ((v : DamlValue x) × (s : DamlRecord x) × (take_field r l ≡ some (ok (v, s)))
          × (field r l ≡ ok v)
          × ((m : String) → m ≢ l → field s m ≡ field r m))
        ⊎ ((take_field r l ≡ some (err (unknown_field l))) × (field r l ≡ err (unknown_field l)))
  unfolding take_field field
  take_field-cases (record_of i fs) l = elim (IsTaken_lem l fs) [
    | inl (p, f) ↦ inr (rw (take_field, p) refl, rw f refl)
    | inr (n, w, gs, p, r, f, others) ↦
        inl (w, record_of i gs, rw (take_field, p, r) refl, rw f refl, λ m d. rw (others m d) refl)
  ]

  -- What a lookup finds after `add_field`: the field that was there, else the one added.
  abbrev pub found_after : Option (DamlValue x) → Bool → DamlValue x → Option (DamlValue x)
  found_after (some w) b v = some w
  found_after none b v = if b then some v else none

  find_field-push :
      (fs : DamlFields x) (l m : String) (v : DamlValue x)
      → find_field m (push fs (some l) v) ≡ found_after (find_field m fs) (str_eq l m) v
  unfolding find_field
  find_field-push no_field l m v = refl
  find_field-push (field_then k w fs) l m v = elim (Bool-cases (has_label m k)) [
    | inl e ↦ rw e refl
    | inr e ↦ rw e (find_field-push fs l m v)
  ]

  -- A record built after one more `add_field` has under each label what it had before, else what was
  -- added under that label, else the error for an unknown field.
  pub field-build-add_field :
      (b : DamlRecordBuilder x) (l m : String) (v : DamlValue x)
      → field (build (add_field b l v)) m
        ≡ ok_or (unknown_field m) (found_after (ok_part (field (build b) m)) (str_eq l m) v)
  unfolding field build add_field
  field-build-add_field b l m v =
      rw (find_field-push b.built l m v, ok_part-ok_or (unknown_field m) (find_field m b.built))
        refl
