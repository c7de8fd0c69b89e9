-- ===== src/Skills.antt =====
-- selector.py and models.py of skills/: the skill that a query activates. The two searches over the
-- index, and the instructions that a skill's file holds, are parameters; the scores are those of the
-- fusion.
pub mod Names
pub mod Activation
use Prim.Native.Char.{code}
use Prim.Native.String
use auditable_scientific_age.Prelude.{
  ℕ, suc, String, Bool, true, false, Option, none, some, List, [], ◌∷◌, map, if◌then◌else◌, nat_eq,
}
use auditable_scientific_age.Prelude.Dict.{Dict, get, get_or, insert}
use auditable_scientific_age.Prelude.Text.{codes, lower, contains, join, ◌<>◌}
use auditable_scientific_age.Retrieval.Fusion.{Scores, Hit}

pub record SkillMetadata : Type 0 where
  pub name : String
  pub description : String
  pub root_path : String
  pub allowed_tools : List String

pub record ActivatedSkill : Type 0 where
  pub name : String
  pub metadata : SkillMetadata
  pub full_instructions : String

abbrev pub chunk_prefix : String
chunk_prefix = "skill_chunk_"

-- The chunk of one skill in `_build_skill_indices`, by what the searches return of it.
abbrev pub skill_chunk : SkillMetadata → Hit
skill_chunk meta = record {
  chunk_id = chunk_prefix <> meta.name;
  document_id = "doc_skill_" <> meta.name;
  text =
      "Skill: "
      <> meta.name
      <> ". Description: "
      <> meta.description
      <> ". Keywords: "
      <> join " " meta.allowed_tools;
}

abbrev pub skill_chunks : List SkillMetadata → List Hit
skill_chunks catalog = map skill_chunk catalog

-- `skill_by_name`
unfoldable pub by_name : List SkillMetadata → Dict SkillMetadata → Dict SkillMetadata
by_name [] d = d
by_name (meta ∷ catalog) d = by_name catalog (insert meta.name meta d)

-- The rest of a text behind a prefix.
abbrev pub behind : String → String → Option String
behind String.[] s = some s
behind (String.◌∷◌ c p) String.[] = none
behind (String.◌∷◌ c p) (String.◌∷◌ d s) = if nat_eq (code c) (code d) then behind p s else none

abbrev pub or_later : String → Option String → String
or_later later none = later
or_later later (some rest) = rest

-- `s.replace(p, "", 1)`
unfoldable pub without_first : String → String → String
without_first p String.[] = or_later "" (behind p "")
without_first p (String.◌∷◌ c s) =
    let later = without_first p s in or_later (String.◌∷◌ c later) (behind p (String.◌∷◌ c s))

unfoldable pub skill_name_of : Hit → String
unfolding without_first
skill_name_of h = without_first chunk_prefix h.chunk_id

-- `meta.name.lower() in lowered_query`
unfoldable pub is_named_in : String → SkillMetadata → Bool
unfolding lower contains
is_named_in query meta = contains (lower (codes meta.name)) (lower (codes query))

-- The fast path.
unfoldable pub find_named : String → List SkillMetadata → Option SkillMetadata
unfolding is_named_in
find_named query [] = none
find_named query (meta ∷ catalog) =
    let later = find_named query catalog in if is_named_in query meta then some meta else later

module _ (scores : Scores) where
  -- The loop over one ranking.
  unfoldable pub add_names : ℕ → List Hit → Dict scores.Score → Dict scores.Score
  unfolding skill_name_of
  add_names rank [] d = d
  add_names rank (h ∷ hits) d = add_names (suc rank) hits (
      insert (skill_name_of h)
        (scores.plus (get_or (skill_name_of h) scores.nothing d) (scores.share rank)) d)

  -- `max(rrf_scores, key=rrf_scores.get)` of the best so far and the rest
  unfoldable pub best_of : String × scores.Score → Dict scores.Score → String
  best_of best [] = best.0
  best_of best ((name, score) ∷ d) =
      best_of (if scores.is_above score best.1 then (name, score) else best) d

  abbrev pub best_name : Dict scores.Score → Option String
  best_name [] = none
  best_name (x ∷ d) = some (best_of x d)

module _ (instructions_of : String → String) where
  -- `load_full_skill`
  abbrev pub load_full_skill : SkillMetadata → ActivatedSkill
  load_full_skill meta = record {
    name = meta.name;
    metadata = meta;
    full_instructions = instructions_of meta.root_path;
  }

  abbrev pub load_if : Option SkillMetadata → Option ActivatedSkill
  load_if none = none
  load_if (some meta) = some (load_full_skill meta)

  abbrev pub load_best : Dict SkillMetadata → Option String → Option ActivatedSkill
  load_best skill_by_name none = none
  load_best skill_by_name (some name) = load_if (get name skill_by_name)

  -- What follows the fast path.
  abbrev pub activate_ranked :
      (scores : Scores) → List SkillMetadata → List Hit → List Hit → Option ActivatedSkill
  activate_ranked scores catalog [] vector_hits = none
  activate_ranked scores catalog (b ∷ bm25_hits) vector_hits =
      load_best (by_name catalog [])
        (best_name scores (add_names scores 1 vector_hits (add_names scores 1 (b ∷ bm25_hits) [])))

  abbrev pub or_ranked : Option SkillMetadata → Option ActivatedSkill → Option ActivatedSkill
  or_ranked none ranked = ranked
  or_ranked (some meta) ranked = some (load_full_skill meta)

  -- `select_and_activate`, on the hits of the two searches
  unfoldable pub select_and_activate :
      (scores : Scores) → List SkillMetadata → String → List Hit → List Hit → Option ActivatedSkill
  unfolding find_named by_name add_names best_of
  select_and_activate scores [] query bm25_hits vector_hits = none
  select_and_activate scores (meta ∷ catalog) query bm25_hits vector_hits =
      or_ranked (find_named query (meta ∷ catalog))
        (activate_ranked scores (meta ∷ catalog) bm25_hits vector_hits)
