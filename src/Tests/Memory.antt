-- ===== src/Tests/Memory.antt =====
-- A Redis server in memory: the texts by key, and the pairs of a set's key and a member.
use poolbeg.Prelude.{
  ◌≡◌, refl, Bool, true, false, not, ◌&&◌, List, [], ◌∷◌, some, String, str_eq, eq_iff, any, keep,
  if◌then◌else◌, lookup, insert, remove, lookup-insert, lookup-remove, arith,
}
use poolbeg.Cache.Redis.{Redis, Laws, Answers}

pub record Store : Type 0 where
  pub texts : List (String × String)
  pub pairs : List (String × String)

unfoldable pub in_set : List (String × String) → String → String → Bool
in_set ps q m = any (λ p. str_eq p.0 q && str_eq p.1 m) ps

unfoldable pub drop_set : String → List (String × String) → List (String × String)
drop_set k ps = keep (λ p. not (str_eq p.0 k)) ps

unfoldable pub list_set : String → List (String × String) → List String
list_set k [] = []
list_set k ((q, m) ∷ ps) = if str_eq q k then m ∷ list_set k ps else list_set k ps

in_set-drop_set :
    (k q m : String) (ps : List (String × String))
    → in_set (drop_set k ps) q m ≡ (if str_eq k q then false else in_set ps q m)
unfolding in_set drop_set
in_set-drop_set k q m [] = ground arith
in_set-drop_set k q m ((a, b) ∷ ps) =
    ground (arith, eq_iff a k, eq_iff a q, eq_iff k q, in_set-drop_set k q m ps)

any-list_set :
    (k m : String) (ps : List (String × String))
    → any (λ n. str_eq n m) (list_set k ps) ≡ in_set ps k m
unfolding in_set list_set
any-list_set k m [] = refl
any-list_set k m ((a, b) ∷ ps) = ground (arith, any-list_set k m ps)

abbrev pub memory : Redis
memory = record {
  State = Store;
  value = λ s k. lookup k s.texts;
  is_member = λ s q m. in_set s.pairs q m;
  get = λ s k. some (lookup k s.texts);
  set = λ s k v px. (record s { texts = insert k v s.texts; pairs = drop_set k s.pairs }, true);
  del = λ s k. (record s { texts = remove k s.texts; pairs = drop_set k s.pairs }, true);
  sadd = λ s k m. (record s { pairs = (k, m) ∷ s.pairs }, true);
  smembers = λ s k. some (list_set k s.pairs);
}

pub memory-Laws : Laws memory
unfolding in_set
memory-Laws = record {
  get_reply = λ s k e. ground arith;
  set_value = λ s k v px j _. lookup-insert k j v s.texts;
  set_members = λ s k v px q m _ ne. ground (arith, in_set-drop_set k q m s.pairs);
  del_value = λ s k j _. lookup-remove k j s.texts;
  del_members = λ s k q m _. in_set-drop_set k q m s.pairs;
  sadd_value = λ s k m j _. refl;
  sadd_members = λ s k m q n _. refl;
  smembers_reply = λ s k m e. ground (arith, any-list_set k m s.pairs);
}

pub memory-Answers : Answers memory
memory-Answers = record {
  get_answers = λ s k. (lookup k s.texts, refl);
  set_answers = λ s k v px. refl;
  del_answers = λ s k. refl;
  sadd_answers = λ s k m. refl;
  smembers_answers = λ s k. (list_set k s.pairs, refl);
}
