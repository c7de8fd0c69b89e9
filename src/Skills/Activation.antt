-- ===== src/Skills/Activation.antt =====
-- Which skill a query activates.
use auditable_scientific_age.Prelude.{
  ◌⊎◌, ℕ, suc, String, Bool, true, false, not, ◌&&◌, ◌||◌, Option, none, some, List, [], ◌∷◌, any,
  all, ◌==◌, eq_refl, ◌≡◌, refl, arith, ◌∙◌, Bool-cases, Option-cases, inl, inr,
}
use auditable_scientific_age.Prelude.Dict.{Dict, get, has, insert}
use auditable_scientific_age.Retrieval.Fusion.{Scores, Hit}
use auditable_scientific_age.Retrieval.Fusion.Lookup.{all_cited-get, covers, covers-insert}
use auditable_scientific_age.Retrieval.Fusion.Provenance.{is_retrieved}
use auditable_scientific_age.Skills.{
  SkillMetadata, ActivatedSkill, skill_chunks, by_name, skill_name_of, is_named_in, find_named,
  add_names, best_of, best_name, load_best, activate_ranked, select_and_activate,
}
use auditable_scientific_age.Skills.Names.{
  is_retrieved-named, has-by_name, is_listed, all_cited-by_name, all-is_listed,
}

find_named_cases :
    (query : String) (catalog : List SkillMetadata)
    → ((find_named query catalog ≡ none) × (any (is_named_in query) catalog ≡ false))
      ⊎ ((m : SkillMetadata) × (find_named query catalog ≡ some m)
          × (any (is_named_in query) catalog ≡ true)
          × (is_named_in query m ≡ true)
          × (is_listed catalog m ≡ true))
unfolding find_named
find_named_cases query [] = inl (refl, refl)
find_named_cases query (m ∷ catalog) = elim (Bool-cases (is_named_in query m)) [
  | inl named ↦ inr (
    m,
    ground (arith, named),
    ground (arith, named),
    named,
    ground (arith, eq_refl m.name, eq_refl m.root_path),
  )
  | inr other ↦ elim (find_named_cases query catalog) [
    | inl (missed, nobody) ↦ inl (ground (arith, other, missed), ground (arith, other, nobody))
    | inr (n, found, somebody, named, listed) ↦ inr (
      n,
      ground (arith, other, found),
      ground (arith, other, somebody),
      named,
      ground (arith, listed),
    )
  ]
]

-- Some skill, and it is in the catalog.
abbrev pub activates_from : List SkillMetadata → Option ActivatedSkill → Bool
activates_from catalog none = false
activates_from catalog (some skill) =
    is_listed catalog skill.metadata && skill.name == skill.metadata.name

abbrev nonempty_dict : {V : Type 0} → Dict V → Bool
nonempty_dict [] = false
nonempty_dict (x ∷ d) = true

nonempty-insert :
    {V : Type 0} → (k : String) (v : V) (d : Dict V) → nonempty_dict (insert k v d) ≡ true
nonempty-insert k v [] = refl
nonempty-insert k v ((j, w) ∷ d) = ground arith

module _ (scores : Scores) (catalog : List SkillMetadata) where
  -- The names behind the scores are those of the catalog.
  add_names-covers :
      (rank : ℕ) (hits : List Hit) (d : Dict scores.Score)
      → all (is_retrieved (skill_chunks catalog)) hits ≡ true
      → covers (by_name catalog []) d ≡ true
      → covers (by_name catalog []) (add_names scores rank hits d) ≡ true
  unfolding add_names
  add_names-covers rank [] d from cover = cover
  add_names-covers rank (h ∷ hits) d from cover =
      let known : has (skill_name_of h) (by_name catalog []) ≡ true =
        has-by_name (skill_name_of h) catalog []
        ∙ ground (arith, is_retrieved-named catalog h (ground (arith, from))) in
      add_names-covers (suc rank) hits _ (ground (arith, from))
        (covers-insert (skill_name_of h) _ (by_name catalog []) d known cover)

  add_names-nonempty :
      (rank : ℕ) (hits : List Hit) (d : Dict scores.Score)
      → nonempty_dict d ≡ true
      → nonempty_dict (add_names scores rank hits d) ≡ true
  unfolding add_names
  add_names-nonempty rank [] d h = h
  add_names-nonempty rank (g ∷ hits) d h =
      add_names-nonempty (suc rank) hits _ (nonempty-insert (skill_name_of g) _ d)

  first_nonempty :
      (h : Hit) (hits : List Hit) → nonempty_dict (add_names scores 1 (h ∷ hits) []) ≡ true
  unfolding add_names
  first_nonempty h hits =
      add_names-nonempty 2 hits
        (insert (skill_name_of h) (scores.plus scores.nothing (scores.share 1)) []) refl

  best_of-covers :
      (lookup : Dict SkillMetadata) (best : String × scores.Score) (d : Dict scores.Score)
      → has best.0 lookup ≡ true
      → covers lookup d ≡ true
      → has (best_of scores best d) lookup ≡ true
  unfolding best_of
  best_of-covers lookup best [] h cover = h
  best_of-covers lookup best ((name, score) ∷ d) h cover =
      elim (Bool-cases (scores.is_above score best.1)) [
        | inl above ↦
            rw above (
              best_of-covers lookup (name, score) d (ground (arith, cover)) (ground (arith, cover)))
        | inr below ↦ rw below (best_of-covers lookup best d h (ground (arith, cover)))
      ]

  module _ (instructions_of : String → String) where
    load_best-activates :
        (d : Dict scores.Score)
        → nonempty_dict d ≡ true
        → covers (by_name catalog []) d ≡ true
        → activates_from catalog
            (load_best instructions_of (by_name catalog []) (best_name scores d))
          ≡ true
    load_best-activates [] h cover = absurd (ground (arith, h))
    load_best-activates (x ∷ d) h cover =
        let name = best_of scores x d in
        let known =
          best_of-covers (by_name catalog []) x d (ground (arith, cover)) (ground (arith, cover)) in
        elim (Option-cases (get name (by_name catalog []))) [
          | inl gone ↦ absurd (ground (arith, known, gone))
          | inr (m, found) ↦
              let listed =
                all_cited-get (is_listed catalog) name m (by_name catalog [])
                  (all_cited-by_name (is_listed catalog) catalog [] (all-is_listed catalog) refl)
                  found in
              rw found (ground (arith, listed, eq_refl m.name))
        ]

-- No skill, or one of the catalog.
abbrev pub is_from : List SkillMetadata → Option ActivatedSkill → Bool
is_from catalog none = true
is_from catalog (some skill) = activates_from catalog (some skill)

abbrev pub is_activated : Option ActivatedSkill → Bool
is_activated none = false
is_activated (some skill) = true

-- The query names the activated skill.
abbrev pub is_asked_for : String → Option ActivatedSkill → Bool
is_asked_for query none = false
is_asked_for query (some skill) = is_named_in query skill.metadata

abbrev pub has_hits : List Hit → Bool
has_hits [] = false
has_hits (h ∷ hits) = true

-- What a selection does.
abbrev pub Chooses : List SkillMetadata → String → List Hit → Option ActivatedSkill → Type 0
Chooses catalog query bm25_hits result =
    (is_activated result ≡ (any (is_named_in query) catalog || has_hits bm25_hits))
    × (is_from catalog result ≡ true)
    × ((not (any (is_named_in query) catalog) || is_asked_for query result) ≡ true)

activated_from :
    (catalog : List SkillMetadata) (result : Option ActivatedSkill)
    → activates_from catalog result ≡ true
    → (is_activated result ≡ true) × (is_from catalog result ≡ true)
activated_from catalog none h = absurd (ground (arith, h))
activated_from catalog (some skill) h = (refl, h)

activate_ranked-Chooses :
    (instructions_of : String → String) (scores : Scores) (catalog : List SkillMetadata)
    (query : String) (bm25_hits vector_hits : List Hit)
    → all (is_retrieved (skill_chunks catalog)) bm25_hits ≡ true
    → all (is_retrieved (skill_chunks catalog)) vector_hits ≡ true
    → any (is_named_in query) catalog ≡ false
    → Chooses catalog query bm25_hits
        (activate_ranked instructions_of scores catalog bm25_hits vector_hits)
activate_ranked-Chooses instructions_of scores catalog query [] vector_hits from_bm25 from_vector
      nobody =
    (ground (arith, nobody), refl, ground (arith, nobody))
activate_ranked-Chooses instructions_of scores catalog query (b ∷ bm25_hits) vector_hits from_bm25
      from_vector nobody =
    let first = add_names scores 1 (b ∷ bm25_hits) [] in
    let (on, from) =
      activated_from catalog
        (activate_ranked instructions_of scores catalog (b ∷ bm25_hits) vector_hits)
        (load_best-activates scores catalog instructions_of (add_names scores 1 vector_hits first)
          (add_names-nonempty scores catalog 1 vector_hits first
            (first_nonempty scores catalog b bm25_hits))
          (add_names-covers scores catalog 1 vector_hits first from_vector
            (add_names-covers scores catalog 1 (b ∷ bm25_hits) [] from_bm25 refl))) in
    (on ∙ ground (arith, nobody), from, ground (arith, nobody))

-- Where the searches return chunks of the index, a skill is activated exactly when the query names one
-- or the keyword search has a hit; it is one of the catalog, under its own name; and when the query
-- names any skill, it names the one that is activated.
pub select_and_activate-Chooses :
    (instructions_of : String → String) (scores : Scores) (catalog : List SkillMetadata)
    (query : String) (bm25_hits vector_hits : List Hit)
    → all (is_retrieved (skill_chunks catalog)) bm25_hits ≡ true
    → all (is_retrieved (skill_chunks catalog)) vector_hits ≡ true
    → Chooses catalog query bm25_hits
        (select_and_activate instructions_of scores catalog query bm25_hits vector_hits)
unfolding select_and_activate
select_and_activate-Chooses instructions_of scores [] query [] vector_hits from_bm25 from_vector =
    (refl, refl, refl)
select_and_activate-Chooses instructions_of scores [] query (b ∷ bm25_hits) vector_hits from_bm25
      from_vector =
    absurd (ground (arith, from_bm25))
select_and_activate-Chooses instructions_of scores (m ∷ catalog) query bm25_hits vector_hits
      from_bm25 from_vector =
    elim (find_named_cases query (m ∷ catalog)) [
      | inl (missed, nobody) ↦ rw missed (
          activate_ranked-Chooses instructions_of scores (m ∷ catalog) query bm25_hits vector_hits
            from_bm25 from_vector nobody)
      | inr (n, found, somebody, named, listed) ↦
          rw found (
            ground (arith, somebody),
            ground (arith, listed, eq_refl n.name),
            ground (arith, named),
          )
    ]
