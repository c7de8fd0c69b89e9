-- ===== src/Retrieval/Fusion/Lookup.antt =====
-- The values and the keys of the dicts that the fusion builds.
use auditable_scientific_age.Prelude.{
  suc, ◌≤◌, String, Bool, true, ◌&&◌, ◌||◌, some, [], ◌∷◌, all, length, ◌==◌, ◌≡◌, refl, arith,
  subst, inl, inr, Bool-cases,
}
use auditable_scientific_age.Prelude.Dict.{Dict, get, has, insert, get-insert}

-- Every value of a dict passes a test.
abbrev pub all_cited : {V : Type 0} → (V → Bool) → Dict V → Bool
all_cited test [] = true
all_cited test ((k, v) ∷ d) = test v && all_cited test d

pub all_cited-insert :
    {V : Type 0}
    → (test : V → Bool) (k : String) (v : V) (d : Dict V) → test v ≡ true
    → all_cited test d ≡ true
    → all_cited test (insert k v d) ≡ true
all_cited-insert test k v [] h all_d = ground (arith, h)
all_cited-insert test k v ((j, w) ∷ d) h all_d =
    ground (arith, h, all_d, all_cited-insert test k v d h)

pub all_cited-get :
    {V : Type 0}
    → (test : V → Bool) (k : String) (v : V) (d : Dict V) → all_cited test d ≡ true
    → get k d ≡ some v
    → test v ≡ true
all_cited-get test k v [] all_d found = absurd (ground (arith, found))
all_cited-get test k v ((j, w) ∷ d) all_d found = elim (Bool-cases (j == k)) [
  | inl same ↦
      let e : w ≡ v = ground (arith, same, found) in
      subst (λ x. test x ≡ true) e (ground (arith, all_d))
  | inr other ↦ all_cited-get test k v d (ground (arith, all_d)) (ground (arith, other, found))
]

pub length-insert-le :
    {V : Type 0} → (k : String) (v : V) (d : Dict V) → length (insert k v d) ≤ suc (length d)
length-insert-le k v [] = omega arith
length-insert-le k v ((j, w) ∷ d) = ground (arith, length-insert-le k v d)

-- Every key of the first is a key of the second.
abbrev pub covers : {V W : Type 0} → Dict W → Dict V → Bool
covers lookup d = all (λ x. has x.0 lookup) d

pub has-insert :
    {V : Type 0} → (k j : String) (v : V) (d : Dict V) → has j (insert k v d) ≡ (k == j || has j d)
has-insert k j v d = ground (arith, get-insert k j v d)

pub covers-insert :
    {V W : Type 0}
    → (k : String) (v : V) (lookup : Dict W) (d : Dict V) → has k lookup ≡ true
    → covers lookup d ≡ true
    → covers lookup (insert k v d) ≡ true
covers-insert k v lookup [] h c = ground (arith, h)
covers-insert k v lookup ((j, w) ∷ d) h c = ground (arith, h, c, covers-insert k v lookup d h)

pub covers_more :
    {V W : Type 0}
    → (k : String) (w : W) (lookup : Dict W) (d : Dict V) → covers lookup d ≡ true
    → covers (insert k w lookup) d ≡ true
covers_more k w lookup [] c = refl
covers_more k w lookup ((j, v) ∷ d) c =
    ground (arith, c, has-insert k j w lookup, covers_more k w lookup d)
