-- ===== src/Memory/Store/Refines.antt =====
-- The table as a map from namespaces and keys to records, over any sequence of writes.
use auditable_scientific_age.Prelude.{
  String, Bool, true, not, ◌&&◌, ◌||◌, Option, some, List, [], ◌∷◌, any, if◌then◌else◌, eq_iff, ◌≡◌,
  refl, ap, ◌∙◌, fun_ext, arith,
}
use auditable_scientific_age.Memory.Models.{MemoryRecord}
use auditable_scientific_age.Memory.Store.{Table, is_at, upsert, get_memory_by_key, put_all, has_id}
use auditable_scientific_age.Memory.Store.Upsert.{merged, first_at-upsert}

-- What the store promises: a map, where a second write keeps the id and the type of the first.
abbrev pub MemoryMap : Type 0
MemoryMap = String → String → Option MemoryRecord

abbrev pub write : MemoryRecord → MemoryMap → MemoryMap
write r f namespace key =
    if is_at namespace key r then some (merged (f r.namespace r.key) r) else f namespace key

abbrev pub replay : List MemoryRecord → MemoryMap → MemoryMap
replay [] f = f
replay (r ∷ rs) f = replay rs (write r f)

abbrev pub view : Table → MemoryMap
view db namespace key = get_memory_by_key namespace key db

-- UNIQUE(namespace, key)
abbrev pub is_unique : Table → Bool
is_unique [] = true
is_unique (r ∷ db) = not (any (is_at r.namespace r.key) db) && is_unique db

-- Each write has an id that is free.
abbrev pub ids_are_free : List MemoryRecord → Table → Bool
ids_are_free [] db = true
ids_are_free (r ∷ rs) db = not (has_id r.memory_id db) && ids_are_free rs (upsert r db)

any-upsert :
    (namespace key : String) (r : MemoryRecord) (db : Table)
    → any (is_at namespace key) (upsert r db)
      ≡ (is_at namespace key r || any (is_at namespace key) db)
unfolding upsert
any-upsert namespace key r [] = ground arith
any-upsert namespace key r (old ∷ db) = ground (
  arith,
  eq_iff r.namespace namespace,
  eq_iff r.key key,
  eq_iff old.namespace namespace,
  eq_iff old.namespace r.namespace,
  eq_iff old.key key,
  eq_iff old.key r.key,
  any-upsert namespace key r db,
)

is_unique-upsert :
    (r : MemoryRecord) (db : Table) → is_unique db ≡ true → is_unique (upsert r db) ≡ true
unfolding upsert
is_unique-upsert r [] h = refl
is_unique-upsert r (old ∷ db) h = ground (
  arith,
  eq_iff r.namespace old.namespace,
  eq_iff r.key old.key,
  eq_iff old.namespace r.namespace,
  eq_iff old.key r.key,
  any-upsert old.namespace old.key r db,
  is_unique-upsert r db,
)

view-upsert : (r : MemoryRecord) (db : Table) → view (upsert r db) ≡ write r (view db)
unfolding get_memory_by_key
view-upsert r db = fun_ext λ namespace. fun_ext λ key. first_at-upsert namespace key r db

-- Any sequence of writes under free ids succeeds, keeps the pairs of namespace and key unique, and
-- leaves a table that reads as the same writes on the map.
pub put_all_refines :
    (on_taken_id : Table → MemoryRecord → Option Table) (rs : List MemoryRecord) (db : Table)
    → is_unique db ≡ true
    → ids_are_free rs db ≡ true
    → (db' : Table) × (put_all on_taken_id rs db ≡ some db')
      × (is_unique db' ≡ true)
      × (view db' ≡ replay rs (view db))
unfolding put_all
put_all_refines on_taken_id [] db u free = (db, refl, u, refl)
put_all_refines on_taken_id (r ∷ rs) db u free =
    let (db', done, unique, same) =
      put_all_refines on_taken_id rs (upsert r db) (is_unique-upsert r db u)
        (ground (arith, free)) in
    (db', ground (arith, free, done), unique, same ∙ ap (replay rs) (view-upsert r db))
