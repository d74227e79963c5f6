-- ===== src/Rialto/Settlement/Store.antt =====
-- `ReplayStore` and `InMemoryReplayStore`: the digests and the nonces that are used up.
pub mod Marked
use bps_protocol.Prelude.{
  ◌≡◌, refl, ap, sym, ◌∙◌, subst, Bool, true, ◌||◌, List, [], ◌∷◌, ◌++◌, arith,
}
use bps_protocol.Integer.{ℤ}
use bps_protocol.Text.{Text, text_eq, text_eq_iff, to_lower_case}
use bps_protocol.Dict.{has, add, has-add}
use bps_protocol.Pod.Numeric.{integer_text}

-- The read side; `in_memory` says that it is an `InMemoryReplayStore`.
pub record ReplayStore : Type 0 where
  pub is_digest_consumed : Text → Bool
  pub is_nonce_used : Text → ℤ → Bool
  pub in_memory : Bool

pub record InMemoryReplayStore : Type 0 where
  pub digests : List Text
  pub nonces : List Text

abbrev pub lower_set : List Text → List Text → List Text
lower_set seen [] = seen
lower_set seen (t ∷ ts) = lower_set (add seen (to_lower_case t)) ts

-- The constructor.
unfoldable pub new_store : List Text → List Text → InMemoryReplayStore
new_store consumed_digests used_nonces = record {
  digests = lower_set [] consumed_digests;
  nonces = lower_set [] used_nonces;
}

unfoldable pub nonce_key : Text → ℤ → Text
nonce_key taker nonce = to_lower_case taker ++ b':' ∷ integer_text nonce

unfoldable pub is_digest_consumed : InMemoryReplayStore → Text → Bool
is_digest_consumed s digest = has s.digests (to_lower_case digest)

unfoldable pub is_nonce_used : InMemoryReplayStore → Text → ℤ → Bool
is_nonce_used s taker nonce = has s.nonces (nonce_key taker nonce)

unfoldable pub mark_consumed : InMemoryReplayStore → Text → Text → ℤ → InMemoryReplayStore
mark_consumed s digest taker nonce = record {
  digests = add s.digests (to_lower_case digest);
  nonces = add s.nonces (nonce_key taker nonce);
}

abbrev pub as_replay_store : InMemoryReplayStore → ReplayStore
as_replay_store s = record {
  is_digest_consumed = is_digest_consumed s;
  is_nonce_used = is_nonce_used s;
  in_memory = true;
}
