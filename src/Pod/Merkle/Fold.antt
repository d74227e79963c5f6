-- ===== src/Pod/Merkle/Fold.antt =====
-- The sorted-pair fold of viem-verify.ts on the proofs of a sorted-pair hash tree.
use bps_protocol.Prelude.{leb, if◌then◌else◌, ◌≡◌, refl, true, List, [], ◌∷◌, ◌++◌, arith, ap, ◌∙◌}
use bps_protocol.Text.{Text, text_eq_iff}
use bps_protocol.Pod.Merkle.{
  HashPackage, LeafFields, sorted_pair, viem_process_proof, viem_verify_raw,
}

-- A hash tree over the hashed contents of its leaves.
pub data HashTree : Type 0 where
  leaf : Text → HashTree
  node : HashTree → HashTree → HashTree

module _ (viem : HashPackage) where
  -- The two hashes, that with the smaller number first.
  abbrev pub smaller_first : Text → Text → Text
  smaller_first a b =
      if leb (viem.hex_value a) (viem.hex_value b) then viem.concat_hex a b else viem.concat_hex b a

  abbrev pub tree_root : HashTree → Text
  tree_root (leaf content) = viem.keccak256 content
  tree_root (node l r) = viem.keccak256 (smaller_first (tree_root l) (tree_root r))

  -- `Proves t content p`: on the way from the leaf with that content to the root of `t` the
  -- siblings are `p`.
  pub data Proves : HashTree → Text → List Text → Type 0 where
    here : (content : Text) → Proves (leaf content) content []
    left :
        {l : HashTree} {content : Text} {p : List Text} (r : HashTree)
        → Proves l content p
        → Proves (node l r) content (p ++ tree_root r ∷ [])
    right :
        {r : HashTree} {content : Text} {p : List Text} (l : HashTree)
        → Proves r content p
        → Proves (node l r) content (p ++ tree_root l ∷ [])

  pub viem_process_proof-append :
      (computed : Text) (p q : List Text)
      → viem_process_proof viem computed (p ++ q)
        ≡ viem_process_proof viem (viem_process_proof viem computed p) q
  unfolding viem_process_proof
  viem_process_proof-append computed [] q = refl
  viem_process_proof-append computed (s ∷ p) q =
      viem_process_proof-append (viem.keccak256 (sorted_pair viem computed s)) p q

  process_snoc :
      (computed s : Text) (p : List Text)
      → viem_process_proof viem computed (p ++ s ∷ [])
        ≡ viem.keccak256 (sorted_pair viem (viem_process_proof viem computed p) s)
  unfolding viem_process_proof
  process_snoc computed s p = viem_process_proof-append computed p (s ∷ [])

  root_is_hash : (t : HashTree) → (x : Text) × (tree_root t ≡ viem.keccak256 x)
  root_is_hash (leaf content) = (content, refl)
  root_is_hash (node l r) = (smaller_first (tree_root l) (tree_root r), refl)

  -- Hashes have one length, so their numbers tell them apart.
  module _
      (numbers : (a b : Text)
        → viem.hex_value (viem.keccak256 a) ≡ viem.hex_value (viem.keccak256 b)
        → viem.keccak256 a ≡ viem.keccak256 b) where
    sorted_pair-left :
        (s t : HashTree)
        → sorted_pair viem (tree_root s) (tree_root t) ≡ smaller_first (tree_root s) (tree_root t)
    unfolding sorted_pair
    sorted_pair-left s t =
        let (a, ea) = root_is_hash s in let (b, eb) = root_is_hash t in ground (arith, numbers a b)

    sorted_pair-right :
        (s t : HashTree)
        → sorted_pair viem (tree_root t) (tree_root s) ≡ smaller_first (tree_root s) (tree_root t)
    unfolding sorted_pair
    sorted_pair-right s t =
        let (a, ea) = root_is_hash s in let (b, eb) = root_is_hash t in ground (arith, numbers a b)

    process_Proves :
        (t : HashTree) (content : Text) (p : List Text)
        → Proves t content p
        → viem_process_proof viem (viem.keccak256 content) p ≡ tree_root t
    unfolding viem_process_proof
    process_Proves _ _ _ (here content) = refl
    process_Proves _ _ _ (left {l} {content} {p} r h) =
        process_snoc (viem.keccak256 content) (tree_root r) p
        ∙ (ap (λ x. viem.keccak256 (sorted_pair viem x (tree_root r)))
              (process_Proves l content p h)
            ∙ ap viem.keccak256 (sorted_pair-left l r))
    process_Proves _ _ _ (right {r} {content} {p} l h) =
        process_snoc (viem.keccak256 content) (tree_root l) p
        ∙ (ap (λ x. viem.keccak256 (sorted_pair viem x (tree_root l)))
              (process_Proves r content p h)
            ∙ ap viem.keccak256 (sorted_pair-right l r))

    -- Where the numbers of hashes tell them apart, the verifier accepts the leaf of the given
    -- fields with every proof for it of a hash tree, of whatever shape, in which a node hashes its
    -- two children with the smaller number first.
    pub viem_verify_raw_complete :
        (t : HashTree) (f : LeafFields) (p : List Text)
        → Proves t
            (viem.keccak256
              (viem.encode_leaf f.chain_id f.claim_manager f.cycle_id f.wallet f.asset f.amount))
            p
        → viem_verify_raw viem f p (tree_root t) ≡ true
    unfolding viem_verify_raw
    viem_verify_raw_complete t f p h = (text_eq_iff _ _).1 (process_Proves t _ p h)
