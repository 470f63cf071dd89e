-- ===== src/RemoteImageAsync/Draining/Costs.antt =====
-- The steps that are left to the goroutines of the loop, under changes of their table.
use container_image_csi_driv.Base.{
  ℕ, ◌+◌, ◌≤◌, ◌≡◌, ap, inl, inr, [], ◌∷◌, some, some-injective, arith, nat_eq, nat_beq, Bool-cases,
}
use container_image_csi_driv.Dict.{Dict, get, put, delete}
use container_image_csi_driv.RemoteImageAsync.{Task, pulling, completing}

-- How many steps are left to a goroutine.
abbrev pub cost : Task → ℕ
cost pulling = 2
cost completing = 1

abbrev pub costs : Dict ℕ Task → ℕ
costs [] = 0
costs ((id, t) ∷ tasks) = cost t + costs tasks

pub costs-put : (id : ℕ) (t : Task) (m : Dict ℕ Task) → costs (put id t m) ≤ cost t + costs m
unfolding put
costs-put id t [] = omega arith
costs-put id t ((j, u) ∷ m) = ground (arith, costs-put id t m)

pub costs-put_known :
    (id : ℕ) (t u : Task) (m : Dict ℕ Task)
    → get id m ≡ some u
    → costs (put id t m) + cost u ≡ costs m + cost t
unfolding get put
costs-put_known id t u [] h = absurd cc
costs-put_known id t u ((j, w) ∷ m) h = elim (Bool-cases (nat_beq j id)) [
  | inl here ↦ rw here (let e = ap cost (some-injective w u (rw here at h)) in omega arith)
  | inr later ↦ rw later (let e = costs-put_known id t u m (rw later at h) in omega arith)
]

costs-delete_le : (id : ℕ) (m : Dict ℕ Task) → costs (delete id m) ≤ costs m
unfolding delete
costs-delete_le id [] = omega arith
costs-delete_le id ((j, u) ∷ m) = ground (arith, costs-delete_le id m)

pub costs-delete :
    (id : ℕ) (u : Task) (m : Dict ℕ Task)
    → get id m ≡ some u
    → costs (delete id m) + cost u ≤ costs m
unfolding get delete
costs-delete id u [] h = absurd cc
costs-delete id u ((j, w) ∷ m) h = elim (Bool-cases (nat_beq j id)) [
  | inl here ↦
      rw here
        (let e = ap cost (some-injective w u (rw here at h)) in omega (arith, costs-delete_le id m))
  | inr later ↦ rw later (let e = costs-delete id u m (rw later at h) in omega arith)
]
