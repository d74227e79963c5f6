-- ===== src/Rialto/Settlement/Store/Marked.antt =====
-- What the store answers after something is marked as used up.
use bps_protocol.Prelude.{
  ◌≡◌, ◌↔◌, ◌⊎◌, inl, inr, refl, true, List, [], ◌∷◌, arith, every, Bool-cases,
}
use bps_protocol.Integer.{ℤ}
use bps_protocol.Text.{Text, text_eq_iff, to_lower_case}
use bps_protocol.Text.Separator.{IsFree, split_unit}
use bps_protocol.Dict.{has, add, has-add}
use bps_protocol.Pod.Address.{is_hex, is_hex_address, is_hex_address-to_lower_case}
use bps_protocol.Pod.Numeric.{integer_text}
use bps_protocol.Pod.Numeric.Decimal.{integer_text-injective}
use bps_protocol.Rialto.Settlement.Store.{
  InMemoryReplayStore, nonce_key, is_digest_consumed, is_nonce_used, mark_consumed,
}

hex-IsFree : (t : Text) → every is_hex t ≡ true → IsFree b':' t
hex-IsFree [] h = tt
hex-IsFree (c ∷ t) h = ((λ e. absurd (ground arith)), hex-IsFree t (ground arith))

address-IsFree : (t : Text) → is_hex_address t ≡ true → IsFree b':' t
unfolding is_hex_address
address-IsFree [] h = tt
address-IsFree (c ∷ []) h = absurd cc
address-IsFree (c ∷ d ∷ ds) h =
    ((λ e. absurd (ground arith)), ((λ e. absurd (ground arith)), hex-IsFree ds (ground arith)))

-- The key tells the taker, up to case, and the nonce.
nonce_key-injective :
    (t u : Text) (m n : ℤ)
    → is_hex_address t ≡ true
    → is_hex_address u ≡ true
    → nonce_key t m ≡ nonce_key u n
    → (to_lower_case t ≡ to_lower_case u) × (m ≡ n)
unfolding nonce_key
nonce_key-injective t u m n ht hu e =
    let (same, rest) =
      split_unit b':' (to_lower_case t) (to_lower_case u) (integer_text m) (integer_text n)
        (address-IsFree (to_lower_case t) (is_hex_address-to_lower_case t ht))
        (address-IsFree (to_lower_case u) (is_hex_address-to_lower_case u hu)) e in
    (same, integer_text-injective m n rest)

has-add_iff : (s : List Text) (k j : Text) → has (add s k) j ≡ true ↔ (has s j ≡ true) ⊎ (k ≡ j)
has-add_iff s k j =
    let after = has-add s k j in
    let same = text_eq_iff k j in
    (
      (λ h. elim (Bool-cases (has s j)) [ inl e ↦ inl e | inr e ↦ inr (same.0 (ground arith)) ]),
      (λ h. elim h [ inl e ↦ ground arith | inr e ↦ ground (arith, same.1 e) ]),
    )

-- After a digest and an address's nonce are marked, exactly those digests are consumed that were,
-- or are that digest in whatever case; and exactly those nonces of addresses are used that were, or
-- are that nonce of that address in whatever case: no other taker and no other nonce is taken for
-- it.
pub mark_consumed_lem :
    (s : InMemoryReplayStore) (digest taker : Text) (nonce : ℤ) (d t : Text) (n : ℤ)
    → is_hex_address taker ≡ true
    → is_hex_address t ≡ true
    → (is_digest_consumed (mark_consumed s digest taker nonce) d ≡ true
        ↔ (is_digest_consumed s d ≡ true) ⊎ (to_lower_case digest ≡ to_lower_case d))
      × (is_nonce_used (mark_consumed s digest taker nonce) t n ≡ true
          ↔ (is_nonce_used s t n ≡ true) ⊎ ((to_lower_case taker ≡ to_lower_case t) × (nonce ≡ n)))
unfolding mark_consumed is_digest_consumed is_nonce_used
mark_consumed_lem s digest taker nonce d t n ha hb =
    let keys = has-add_iff s.nonces (nonce_key taker nonce) (nonce_key t n) in
    (
      has-add_iff s.digests (to_lower_case digest) (to_lower_case d),
      (
        (λ h. elim (keys.0 h) [
          | inl e ↦ inl e
          | inr e ↦ inr (nonce_key-injective taker t nonce n ha hb e)
        ]),
        (λ h. elim h [ inl e ↦ keys.1 (inl e) | inr e ↦ keys.1 (inr (same_key e)) ]),
      ),
    )
  where
    same_key :
        (to_lower_case taker ≡ to_lower_case t) × (nonce ≡ n)
        → nonce_key taker nonce ≡ nonce_key t n
    same_key e = unfold nonce_key in rw (e.0, e.1) refl
