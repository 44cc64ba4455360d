-- ===== src/Transaction/Canonical.antt =====
-- The canonical form of a payload, and what does not change when a transaction is read back.
use unc_coin.Prelude.{String, false, ◌≡◌, refl, ap, Bool-cases, inl, inr}
use unc_coin.Value.{Value, text, int, bool, null, obj, arr, Fields, field, end, Items, nil, cons}
use unc_coin.Text.Order.{is_after, is_after_asym}
use unc_coin.Transaction.Wire.{insert_field, canonicalize, canonical_fields, canonical_items}

-- A key that is not after the first key.
Leads : String → Fields → Type 0
Leads k end = Unit
Leads k (field j w fs) = is_after k j ≡ false

mutual
  unfolding Leads

  IsCanonical : Value → Type 0
  IsCanonical (obj fs) = AreSorted fs
  IsCanonical (arr vs) = AreCanonical vs
  IsCanonical (text s) = Unit
  IsCanonical (int n) = Unit
  IsCanonical (bool b) = Unit
  IsCanonical null = Unit

  AreSorted : Fields → Type 0
  AreSorted end = Unit
  AreSorted (field k v fs) = IsCanonical v × Leads k fs × AreSorted fs

  AreCanonical : Items → Type 0
  AreCanonical nil = Unit
  AreCanonical (cons v vs) = IsCanonical v × AreCanonical vs

insert_field-Leads :
    (j k : String) (v : Value) (fs : Fields)
    → is_after j k ≡ false
    → Leads j fs
    → Leads j (insert_field k v fs)
unfolding Leads insert_field
insert_field-Leads j k v end h first = h
insert_field-Leads j k v (field i w fs) h first = elim (Bool-cases (is_after k i)) [
  | inl after ↦ rw after first
  | inr before ↦ rw before h
]

insert_field-AreSorted :
    (k : String) (v : Value) (fs : Fields)
    → IsCanonical v
    → AreSorted fs
    → AreSorted (insert_field k v fs)
unfolding Leads AreSorted insert_field
insert_field-AreSorted k v end h sorted = (h, tt, tt)
insert_field-AreSorted k v (field j w fs) h (hw, first, rest) = elim (Bool-cases (is_after k j)) [
  | inl after ↦ rw after (
    hw,
    insert_field-Leads j k v fs (is_after_asym k j after) first,
    insert_field-AreSorted k v fs h rest,
  )
  | inr before ↦ rw before (h, before, (hw, first, rest))
]

insert_field_first :
    (k : String) (v : Value) (fs : Fields) → Leads k fs → insert_field k v fs ≡ field k v fs
unfolding Leads insert_field
insert_field_first k v end h = refl
insert_field_first k v (field j w fs) h = rw h refl

mutual
  unfolding IsCanonical AreSorted AreCanonical canonicalize canonical_fields canonical_items

  canonicalize-IsCanonical : (v : Value) → IsCanonical (canonicalize v)
  canonicalize-IsCanonical (obj fs) = canonical_fields-AreSorted fs
  canonicalize-IsCanonical (arr vs) = canonical_items-AreCanonical vs
  canonicalize-IsCanonical (text s) = tt
  canonicalize-IsCanonical (int n) = tt
  canonicalize-IsCanonical (bool b) = tt
  canonicalize-IsCanonical null = tt

  canonical_fields-AreSorted : (fs : Fields) → AreSorted (canonical_fields fs)
  canonical_fields-AreSorted end = tt
  canonical_fields-AreSorted (field k v fs) =
      insert_field-AreSorted k (canonicalize v) (canonical_fields fs) (canonicalize-IsCanonical v)
        (canonical_fields-AreSorted fs)

  canonical_items-AreCanonical : (vs : Items) → AreCanonical (canonical_items vs)
  canonical_items-AreCanonical nil = tt
  canonical_items-AreCanonical (cons v vs) =
      (canonicalize-IsCanonical v, canonical_items-AreCanonical vs)

mutual
  unfolding IsCanonical AreSorted AreCanonical canonicalize canonical_fields canonical_items

  canonicalize_same : (v : Value) → IsCanonical v → canonicalize v ≡ v
  canonicalize_same (obj fs) h = ap obj (canonical_fields_same fs h)
  canonicalize_same (arr vs) h = ap arr (canonical_items_same vs h)
  canonicalize_same (text s) h = refl
  canonicalize_same (int n) h = refl
  canonicalize_same (bool b) h = refl
  canonicalize_same null h = refl

  canonical_fields_same : (fs : Fields) → AreSorted fs → canonical_fields fs ≡ fs
  canonical_fields_same end h = refl
  canonical_fields_same (field k v fs) (hv, first, rest) =
      rw (canonicalize_same v hv, canonical_fields_same fs rest) (insert_field_first k v fs first)

  canonical_items_same : (vs : Items) → AreCanonical vs → canonical_items vs ≡ vs
  canonical_items_same nil h = refl
  canonical_items_same (cons v vs) (hv, rest) =
      rw (canonicalize_same v hv, canonical_items_same vs rest) refl

-- The canonical form of a payload is its own canonical form.
pub canonical_fields_idem :
    (fs : Fields) → canonical_fields (canonical_fields fs) ≡ canonical_fields fs
canonical_fields_idem fs =
    canonical_fields_same (canonical_fields fs) (canonical_fields-AreSorted fs)
