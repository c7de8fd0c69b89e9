-- ===== src/Skills/Names.antt =====
-- The skill behind a chunk of the index.
use text.Mathlib.TextLemmas.{cons-append, nil-append}
use auditable_scientific_age.Prelude.{
  String, Bool, true, ◌&&◌, ◌||◌, some, List, [], ◌∷◌, any, all, ◌==◌, eq_iff, eq_refl, ◌≡◌, refl,
  arith, ap, ◌∙◌, sym, Bool-cases, inl, inr,
}
use auditable_scientific_age.Prelude.Text.{◌<>◌}
use auditable_scientific_age.Prelude.Dict.{Dict, has, insert}
use auditable_scientific_age.Retrieval.Fusion.{Hit}
use auditable_scientific_age.Retrieval.Fusion.Lookup.{has-insert, all_cited, all_cited-insert}
use auditable_scientific_age.Retrieval.Fusion.Provenance.{is_retrieved}
use auditable_scientific_age.Skills.{
  SkillMetadata, chunk_prefix, skill_chunks, by_name, behind, without_first, skill_name_of,
}

behind-append : (p s : String) → behind p (p <> s) ≡ some s
behind-append String.[] s = ap some (nil-append s)
behind-append (String.◌∷◌ c p) s = rw (cons-append c p s) (ground (arith, behind-append p s))

without_first-behind : (p t rest : String) → behind p t ≡ some rest → without_first p t ≡ rest
unfolding without_first
without_first-behind p String.[] rest h = ground (arith, h)
without_first-behind p (String.◌∷◌ c s) rest h = ground (arith, h)

-- A chunk made for a skill leads back to its name.
skill_name_of-chunk :
    (h : Hit) (m : SkillMetadata) → h.chunk_id ≡ chunk_prefix <> m.name → skill_name_of h ≡ m.name
unfolding skill_name_of
skill_name_of-chunk h m e =
    ap (without_first chunk_prefix) e
    ∙ without_first-behind chunk_prefix (chunk_prefix <> m.name) m.name
        (behind-append chunk_prefix m.name)

-- A hit of the index is a hit of a skill of the catalog.
pub is_retrieved-named :
    (catalog : List SkillMetadata) (h : Hit)
    → is_retrieved (skill_chunks catalog) h ≡ true
    → any (λ m. m.name == skill_name_of h) catalog ≡ true
is_retrieved-named [] h found = absurd (ground (arith, found))
is_retrieved-named (m ∷ catalog) h found =
    elim (Bool-cases (h.chunk_id == chunk_prefix <> m.name)) [
      | inl same ↦
          let e : m.name ≡ skill_name_of h =
            sym (skill_name_of-chunk h m ((eq_iff h.chunk_id (chunk_prefix <> m.name)).0 same)) in
          ground (arith, (eq_iff m.name (skill_name_of h)).1 e)
      | inr other ↦ ground (arith, is_retrieved-named catalog h (ground (arith, other, found)))
    ]

pub has-by_name :
    (k : String) (catalog : List SkillMetadata) (d : Dict SkillMetadata)
    → has k (by_name catalog d) ≡ (has k d || any (λ m. m.name == k) catalog)
unfolding by_name
has-by_name k [] d = ground arith
has-by_name k (m ∷ catalog) d =
    has-by_name k catalog (insert m.name m d) ∙ ground (arith, has-insert m.name k m d)

-- The catalog has a skill of this name and place.
abbrev pub is_listed : List SkillMetadata → SkillMetadata → Bool
is_listed catalog m = any (λ n. n.name == m.name && n.root_path == m.root_path) catalog

pub all_cited-by_name :
    (listed : SkillMetadata → Bool) (catalog : List SkillMetadata) (d : Dict SkillMetadata)
    → all listed catalog ≡ true
    → all_cited listed d ≡ true
    → all_cited listed (by_name catalog d) ≡ true
unfolding by_name
all_cited-by_name listed [] d h all_d = all_d
all_cited-by_name listed (m ∷ catalog) d h all_d =
    all_cited-by_name listed catalog (insert m.name m d) (ground (arith, h))
      (all_cited-insert listed m.name m d (ground (arith, h)) all_d)

all-is_listed_more :
    (m : SkillMetadata) (catalog xs : List SkillMetadata)
    → all (is_listed catalog) xs ≡ true
    → all (is_listed (m ∷ catalog)) xs ≡ true
all-is_listed_more m catalog [] h = refl
all-is_listed_more m catalog (x ∷ xs) h = ground (arith, h, all-is_listed_more m catalog xs)

pub all-is_listed : (catalog : List SkillMetadata) → all (is_listed catalog) catalog ≡ true
all-is_listed [] = refl
all-is_listed (m ∷ catalog) = ground (
  arith,
  eq_refl m.name,
  eq_refl m.root_path,
  all-is_listed_more m catalog catalog (all-is_listed catalog),
)
