-- ===== src/Dict.antt =====
-- A JavaScript `Map` with string keys: entries in the order of their first insertion; `set` on a
-- present key keeps its place. A `Set` of strings is a list in the order of insertion.
use bps_protocol.Prelude.{
  ◌≡◌, refl, Bool, false, ◌||◌, Option, none, some, List, [], ◌∷◌, ◌++◌, arith, if◌then◌else◌, All,
  Bool-cases, inl, inr, subst,
}
use bps_protocol.Text.{Text, text_eq, text_eq_iff}

abbrev pub Dict {ℓ} : Type ℓ → Type ℓ
Dict V = List (Text × V)

module _ {ℓ} {V : Type ℓ} where
  -- `m.get(k)`
  unfoldable pub get : Dict V → Text → Option V
  get [] k = none
  get ((j, v) ∷ m) k = if text_eq j k then some v else get m k

  -- `m.set(k, v)`
  unfoldable pub put : Dict V → Text → V → Dict V
  put [] k v = (k, v) ∷ []
  put ((j, w) ∷ m) k v = if text_eq j k then (j, v) ∷ m else (j, w) ∷ put m k v

  -- `m.get(k) ?? d`
  abbrev pub get_or : V → Dict V → Text → V
  get_or d m k = elim (get m k) [ none ↦ d | some v ↦ v ]

  pub get-put :
      (m : Dict V) (k j : Text) (v : V)
      → get (put m k v) j ≡ (if text_eq k j then some v else get m j)
  unfolding get put
  get-put [] k j v = refl
  get-put ((i, w) ∷ m) k j v =
      ground (arith, text_eq_iff i k, text_eq_iff i j, text_eq_iff k j, get-put m k j v)

  -- The entries after a `set` are those before it and the new one.
  pub All-put {κ} :
      (P : Text × V → Type κ) (m : Dict V) (k : Text) (v : V)
      → P (k, v)
      → All P m
      → All P (put m k v)
  unfolding put
  All-put P [] k v p h = (p, tt)
  All-put P ((j, w) ∷ m) k v p h = elim (Bool-cases (text_eq j k)) [
    | inl e ↦ rw (e, (text_eq_iff j k).0 e) (p, h.1)
    | inr e ↦ rw e (h.0, All-put P m k v p h.1)
  ]

  -- What `get` finds is an entry.
  pub All_get {κ} :
      (P : Text × V → Type κ) (m : Dict V) (k : Text) {v : V}
      → All P m
      → get m k ≡ some v
      → P (k, v)
  unfolding get
  All_get P [] k h e = cc
  All_get P ((j, w) ∷ m) k h e = elim (Bool-cases (text_eq j k)) [
    | inl f ↦ let same : (j, w) ≡ (k, _) = ground (arith, text_eq_iff j k) in subst P same h.0
    | inr f ↦ All_get P m k h.1 (ground arith)
  ]

-- `s.has(k)`
unfoldable pub has : List Text → Text → Bool
has [] k = false
has (j ∷ s) k = text_eq j k || has s k

-- `s.add(k)`
unfoldable pub add : List Text → Text → List Text
add s k = if has s k then s else s ++ k ∷ []

pub has-snoc : (s : List Text) (k j : Text) → has (s ++ k ∷ []) j ≡ (has s j || text_eq k j)
unfolding has
has-snoc [] k j = ground arith
has-snoc (i ∷ s) k j = ground (arith, has-snoc s k j)

pub has-add : (s : List Text) (k j : Text) → has (add s k) j ≡ (has s j || text_eq k j)
unfolding add
has-add s k j = ground (arith, has-snoc s k j, text_eq_iff k j)
