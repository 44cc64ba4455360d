-- ===== src/Transaction/Sent.antt =====
-- A transaction that is sent in its dict form, as the receiver reads it.
use unc_coin.Prelude.{String, some, ◌≡◌, ◌∙◌, refl, ap, Bool-cases, inl, inr, ◌==◌}
use unc_coin.Prelude.Int.{ℤ}
use unc_coin.Value.{Value, obj, Fields, field, end}
use unc_coin.Externals.{Externals, hex_digest}
use unc_coin.Text.Order.{is_after}
use unc_coin.Transaction.{Transaction, Kind}
use unc_coin.Transaction.Wire.{
  insert_field, canonical_fields, default_payload, post_init, to_dict, from_dict,
}
use unc_coin.Transaction.Serialize.{
  canonical_payload, signing_payload, serialize_transaction, transaction_hash,
}
use unc_coin.Transaction.RoundTrip.{IsExact, IsNamed, from_dict-to_dict}
use unc_coin.Transaction.Canonical.{canonical_fields_idem}

-- What is read back of a transaction: the keys of its payload are sorted, and a transfer without a
-- payload has the default one.
unfoldable pub read_back : Externals → Transaction → Transaction
unfolding post_init canonical_fields
read_back X t = post_init X (record t { payload = canonical_fields t.payload })

module _ (X : Externals) (receiver : String) (amount : ℤ) where
  default_payload_field :
      (kind : Kind) (k : String) (v : Value) (fs : Fields)
      → default_payload X kind (field k v fs) receiver amount ≡ field k v fs
  unfolding default_payload
  default_payload_field Kind.transfer k v fs = refl
  default_payload_field Kind.execute k v fs = refl
  default_payload_field Kind.commit k v fs = refl
  default_payload_field Kind.reveal k v fs = refl
  default_payload_field Kind.authorize k v fs = refl
  default_payload_field Kind.deploy k v fs = refl
  default_payload_field (Kind.other s) k v fs = refl

  default_payload-insert_field :
      (kind : Kind) (k : String) (v : Value) (fs : Fields)
      → default_payload X kind (insert_field k v fs) receiver amount ≡ insert_field k v fs
  unfolding insert_field
  default_payload-insert_field kind k v end = default_payload_field kind k v end
  default_payload-insert_field kind k v (field j w fs) = elim (Bool-cases (is_after k j)) [
    | inl after ↦ rw after (default_payload_field kind j w (insert_field k v fs))
    | inr before ↦ rw before (default_payload_field kind k v (field j w fs))
  ]

  default_payload-canonical_fields :
      (kind : Kind) (fs : Fields)
      → default_payload X kind fs receiver amount ≡ fs
      → default_payload X kind (canonical_fields fs) receiver amount ≡ canonical_fields fs
  unfolding canonical_fields
  default_payload-canonical_fields kind end h = h
  default_payload-canonical_fields kind (field k v fs) h =
      default_payload-insert_field kind k _ (canonical_fields fs)

-- A transaction that `__post_init__` has completed is read back with its payload sorted.
pub read_back_payload :
    (X : Externals) (t : Transaction)
    → post_init X t ≡ t
    → read_back X t ≡ record t { payload = canonical_fields t.payload }
unfolding read_back post_init
read_back_payload X t h =
    ap (λ fs. record t { payload = fs })
      (default_payload-canonical_fields X t.receiver t.amount t.kind t.payload
        (ap (λ u. u.payload) h))

-- The transaction that the receiver of a dict reads is sent on as the same dict, and the text that
-- was signed and the hash are the sender's.
pub record Arrives (X : Externals) (t : Transaction) : Type 0 where
  pub received : Transaction
  pub read : from_dict X (to_dict X t) ≡ some received
  pub same_dict : to_dict X received ≡ to_dict X t
  pub same_signed : signing_payload X received ≡ signing_payload X t
  pub same_text : serialize_transaction X received ≡ serialize_transaction X t
  pub same_hash : transaction_hash X received ≡ transaction_hash X t

module _ (X : Externals) (t : Transaction) (complete : post_init X t ≡ t) where
  sorted : Transaction
  sorted = record t { payload = canonical_fields t.payload }

  canonical_payload-sorted : canonical_payload X sorted ≡ canonical_payload X t
  unfolding sorted canonical_payload
  canonical_payload-sorted = ap (λ fs. X.canonical_json (obj fs)) (canonical_fields_idem t.payload)

  serialize_transaction-sorted : serialize_transaction X sorted ≡ serialize_transaction X t
  unfolding sorted serialize_transaction
  serialize_transaction-sorted = elim (Bool-cases (t.version == 1)) [
    | inl legacy ↦ rw legacy refl
    | inr typed ↦ rw (typed, canonical_payload-sorted) refl
  ]

  signing_payload-sorted : signing_payload X sorted ≡ signing_payload X t
  unfolding sorted signing_payload
  signing_payload-sorted = elim (Bool-cases (t.version == 1)) [
    | inl legacy ↦ rw legacy refl
    | inr typed ↦ rw (typed, canonical_payload-sorted) refl
  ]

  to_dict-sorted : to_dict X sorted ≡ to_dict X t
  unfolding sorted to_dict
  to_dict-sorted = rw (canonical_fields_idem t.payload) refl

  pub serialize_transaction-read_back :
      serialize_transaction X (read_back X t) ≡ serialize_transaction X t
  unfolding sorted
  serialize_transaction-read_back =
      ap (serialize_transaction X) (read_back_payload X t complete) ∙ serialize_transaction-sorted

  -- A completed transaction that is sent in its dict form arrives: it is read, and its dict, the
  -- text that its signature covers and its hash are the sender's; where decimals and the time are
  -- read as they are printed and the kind is named.
  pub to_dict-Arrives :
      IsExact X → X.iso_of t.timestamp ≡ some t.timestamp → IsNamed t.kind → Arrives X t
  unfolding sorted read_back transaction_hash
  to_dict-Arrives exact time named = record {
    received = sorted;
    read = from_dict-to_dict X t exact time named ∙ ap some (read_back_payload X t complete);
    same_dict = to_dict-sorted;
    same_signed = signing_payload-sorted;
    same_text = serialize_transaction-sorted;
    same_hash = ap (hex_digest X) serialize_transaction-sorted;
  }
