-- ===== src/Order/Unique.antt =====
-- A sort by a strict total order depends only on what the list holds, not on its order.
use bps_protocol.Prelude.{◌≡◌, Bool, List, [], ◌∷◌, arith, ◌∙◌, refl}
use bps_protocol.Order.Sort.{IsStrictOrder, insert_sorted, sort_by}
use mathlib.Core.List.{Perm, Permᴰ}
use mathlib.Core.Logic.{∥∥₁_elim}

module _ {ℓ} {A : Type ℓ} (lt : A → A → Bool) (order : IsStrictOrder lt) where
  pub insert_comm :
      (x y : A) (zs : List A)
      → insert_sorted lt x (insert_sorted lt y zs) ≡ insert_sorted lt y (insert_sorted lt x zs)
  unfolding insert_sorted
  insert_comm x y [] = ground (arith, order.connex x y, order.trans x y x, order.irrefl x)
  insert_comm x y (z ∷ zs) = ground (
    arith,
    insert_comm x y zs,
    order.connex x y,
    order.connex x z,
    order.connex y z,
    order.trans x y x,
    order.irrefl x,
    order.trans x z y,
    order.trans y z x,
    order.trans z x y,
    order.trans z y x,
  )

  sort_by-Permᴰ : {xs ys : List A} → Permᴰ xs ys → sort_by lt xs ≡ sort_by lt ys
  unfolding sort_by
  sort_by-Permᴰ Permᴰ.nil = refl
  sort_by-Permᴰ (Permᴰ.cons e p) = cc (e, sort_by-Permᴰ p)
  sort_by-Permᴰ (Permᴰ.swap {a} {b} {l = l} e f) = cc (e, f, insert_comm a b (sort_by lt l))
  sort_by-Permᴰ (Permᴰ.trans p q) = sort_by-Permᴰ p ∙ sort_by-Permᴰ q

  pub sort_by-eq_of_perm :
      {xs ys : List A} → IsSet (List A) → Perm xs ys → sort_by lt xs ≡ sort_by lt ys
  sort_by-eq_of_perm s p = ∥∥₁_elim p (s _ _) sort_by-Permᴰ
