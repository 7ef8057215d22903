-- ===== src/Ast/Decoder/Keys.antt =====
-- ast.py, `ReQLDecoder`: the keys of grouped data can be hashed.
use rethinkdb_python.Base.{
  ◌≡◌, refl, subst, String, Option, none, some, str_eq, Bool-cases, inl, inr,
}
use rethinkdb_python.Base.Exec.{Outcome, ok, raised, blocked}
use rethinkdb_python.Base.Outcome.{or_raise, Holds, >>=-Holds}
use rethinkdb_python.Errors.{Exn}
use rethinkdb_python.Ast.Decoder.{
  Value, null, atom, text, list, object, groups, tuple, frozen_object, frozen_groups, Values,
  no_values, value, Members, no_members, member, Groups, no_groups, group, Library, FormatOpts, get,
  field, make_hashable, make_all, make_members, make_groups, convert_time, convert_binary, pair_of,
  groups_of, items_of, convert_grouped_data,
}

module _ {D : Type 0} where
  -- Values that Python can hash.
  unfoldable mutual
    pub IsHashable : Value D → Type 0
    IsHashable null = Unit
    IsHashable (atom d) = Unit
    IsHashable (text t) = Unit
    IsHashable (tuple vs) = AreHashable vs
    IsHashable (frozen_object ms) = AreHashableMembers ms
    IsHashable (frozen_groups gs) = AreHashableGroups gs
    IsHashable _ = ⊥

    pub AreHashable : Values D → Type 0
    AreHashable no_values = Unit
    AreHashable (value v vs) = IsHashable v × AreHashable vs

    pub AreHashableMembers : Members D → Type 0
    AreHashableMembers no_members = Unit
    AreHashableMembers (member k v ms) = IsHashable v × AreHashableMembers ms

    pub AreHashableGroups : Groups D → Type 0
    AreHashableGroups no_groups = Unit
    AreHashableGroups (group k v gs) = IsHashable k × IsHashable v × AreHashableGroups gs

  -- Values in which the keys of all grouped data can be hashed, at any depth.
  unfoldable mutual
    pub IsKeyed : Value D → Type 0
    IsKeyed null = Unit
    IsKeyed (atom d) = Unit
    IsKeyed (text t) = Unit
    IsKeyed (list vs) = AreKeyed vs
    IsKeyed (object ms) = AreKeyedMembers ms
    IsKeyed (groups gs) = AreKeyedGroups gs
    IsKeyed _ = ⊥

    pub AreKeyed : Values D → Type 0
    AreKeyed no_values = Unit
    AreKeyed (value v vs) = IsKeyed v × AreKeyed vs

    pub AreKeyedMembers : Members D → Type 0
    AreKeyedMembers no_members = Unit
    AreKeyedMembers (member k v ms) = IsKeyed v × AreKeyedMembers ms

    pub AreKeyedGroups : Groups D → Type 0
    AreKeyedGroups no_groups = Unit
    AreKeyedGroups (group k v gs) = IsHashable k × IsKeyed v × AreKeyedGroups gs

  mutual
    unfolding IsHashable AreHashable AreHashableMembers AreHashableGroups IsKeyed AreKeyed
        AreKeyedMembers AreKeyedGroups make_hashable make_all make_members make_groups

    pub make_hashable-IsHashable : (v : Value D) → IsKeyed v → IsHashable (make_hashable v)
    make_hashable-IsHashable null k = tt
    make_hashable-IsHashable (atom d) k = tt
    make_hashable-IsHashable (text t) k = tt
    make_hashable-IsHashable (list vs) k = make_all-AreHashable vs k
    make_hashable-IsHashable (object ms) k = make_members-AreHashable ms k
    make_hashable-IsHashable (groups gs) k = make_groups-AreHashable gs k
    make_hashable-IsHashable (tuple vs) k = absurd k
    make_hashable-IsHashable (frozen_object ms) k = absurd k
    make_hashable-IsHashable (frozen_groups gs) k = absurd k

    make_all-AreHashable : (vs : Values D) → AreKeyed vs → AreHashable (make_all vs)
    make_all-AreHashable no_values k = tt
    make_all-AreHashable (value v vs) (k, ks) =
        (make_hashable-IsHashable v k, make_all-AreHashable vs ks)

    make_members-AreHashable :
        (ms : Members D) → AreKeyedMembers ms → AreHashableMembers (make_members ms)
    make_members-AreHashable no_members k = tt
    make_members-AreHashable (member j v ms) (k, ks) =
        (make_hashable-IsHashable v k, make_members-AreHashable ms ks)

    make_groups-AreHashable :
        (gs : Groups D) → AreKeyedGroups gs → AreHashableGroups (make_groups gs)
    make_groups-AreHashable no_groups k = tt
    make_groups-AreHashable (group j v gs) (h, k, ks) =
        (h, make_hashable-IsHashable v k, make_groups-AreHashable gs ks)

  get-IsKeyed :
      (k : String) (ms : Members D) (v : Value D)
      → AreKeyedMembers ms
      → get k ms ≡ some v
      → IsKeyed v
  unfolding get AreKeyedMembers
  get-IsKeyed k no_members v keyed e = cc
  get-IsKeyed k (member j u ms) v (here, more) e = elim (Bool-cases (str_eq j k)) [
    | inl found ↦ let same : u ≡ v = cc (rw found at e) in subst (λ x. IsKeyed x) same here
    | inr other ↦ get-IsKeyed k ms v more (rw other at e)
  ]

  field-Holds : (k : String) (ms : Members D) → AreKeyedMembers ms → Holds IsKeyed (field k ms)
  unfolding field
  field-Holds k ms keyed = go _ (get k ms) (λ v e. get-IsKeyed k ms v keyed e)
    where
      go :
          (x : Exn) (o : Option (Value D))
          → ((v : Value D) → o ≡ some v → IsKeyed v)
          → Holds IsKeyed (or_raise x o)
      go x none found = tt
      go x (some v) found = found v refl

  Holds-any : (o : Outcome Exn D) → Holds (λ d. Unit {0}) o
  Holds-any (ok d) = tt
  Holds-any (raised e) = tt
  Holds-any blocked = tt

  -- What Python unpacks or iterates over is made of parts of the value.
  pub record IsSound (lib : Library D) : Type 0 where
    pub unpacks : (v : Value D) → IsKeyed v → Holds (λ p. IsKeyed p.0 × IsKeyed p.1) (lib.unpack v)
    pub iterates : (v : Value D) → IsKeyed v → Holds AreKeyed (lib.iterate v)

  module _ (lib : Library D) (opts : FormatOpts) (sound : IsSound lib) where
    pub convert_time-Holds :
        (ms : Members D) → AreKeyedMembers ms → Holds IsKeyed (convert_time lib opts ms)
    unfolding convert_time IsKeyed
    convert_time-Holds ms keyed =
        >>=-Holds IsKeyed IsKeyed (field "epoch_time" ms) _ (field-Holds "epoch_time" ms keyed)
          (λ t k.
            >>=-Holds (λ d. Unit {0}) IsKeyed (lib.from_timestamp t (get "timezone" ms)) _
              (Holds-any (lib.from_timestamp t (get "timezone" ms))) (λ d u. tt))

    pub convert_binary-Holds :
        (ms : Members D) → AreKeyedMembers ms → Holds IsKeyed (convert_binary lib opts ms)
    unfolding convert_binary IsKeyed
    convert_binary-Holds ms keyed =
        >>=-Holds IsKeyed IsKeyed (field "data" ms) _ (field-Holds "data" ms keyed) (λ t k.
          >>=-Holds (λ d. Unit {0}) IsKeyed (lib.b64decode t) _ (Holds-any (lib.b64decode t))
            (λ d u. tt))

    pair_of-Holds :
        (v : Value D) → IsKeyed v → Holds (λ p. IsKeyed p.0 × IsKeyed p.1) (pair_of lib opts v)
    unfolding pair_of IsKeyed AreKeyed
    pair_of-Holds (list no_values) k = tt
    pair_of-Holds (list (value a no_values)) k = tt
    pair_of-Holds (list (value a (value b no_values))) (k, (j, u)) = (k, j)
    pair_of-Holds (list (value a (value b (value c vs)))) k = tt
    pair_of-Holds null k = sound.unpacks null k
    pair_of-Holds (atom d) k = sound.unpacks (atom d) k
    pair_of-Holds (text t) k = sound.unpacks (text t) k
    pair_of-Holds (object ms) k = sound.unpacks (object ms) k
    pair_of-Holds (groups gs) k = sound.unpacks (groups gs) k
    pair_of-Holds (tuple vs) k = absurd k
    pair_of-Holds (frozen_object ms) k = absurd k
    pair_of-Holds (frozen_groups gs) k = absurd k

    groups_of-Holds : (vs : Values D) → AreKeyed vs → Holds AreKeyedGroups (groups_of lib opts vs)
    unfolding groups_of AreKeyed AreKeyedGroups
    groups_of-Holds no_values k = tt
    groups_of-Holds (value v vs) (k, ks) =
        >>=-Holds (λ p. IsKeyed p.0 × IsKeyed p.1) AreKeyedGroups (pair_of lib opts v) _
          (pair_of-Holds v k)
          (λ p (a, b).
            >>=-Holds AreKeyedGroups AreKeyedGroups (groups_of lib opts vs) _
              (groups_of-Holds vs ks) (λ gs g. (make_hashable-IsHashable p.0 a, b, g)))

    items_of-Holds : (v : Value D) → IsKeyed v → Holds AreKeyed (items_of lib opts v)
    unfolding items_of IsKeyed
    items_of-Holds (list vs) k = k
    items_of-Holds null k = sound.iterates null k
    items_of-Holds (atom d) k = sound.iterates (atom d) k
    items_of-Holds (text t) k = sound.iterates (text t) k
    items_of-Holds (object ms) k = sound.iterates (object ms) k
    items_of-Holds (groups gs) k = sound.iterates (groups gs) k
    items_of-Holds (tuple vs) k = absurd k
    items_of-Holds (frozen_object ms) k = absurd k
    items_of-Holds (frozen_groups gs) k = absurd k

    pub convert_grouped_data-Holds :
        (ms : Members D) → AreKeyedMembers ms → Holds IsKeyed (convert_grouped_data lib opts ms)
    unfolding convert_grouped_data IsKeyed
    convert_grouped_data-Holds ms keyed =
        >>=-Holds IsKeyed IsKeyed (field "data" ms) _ (field-Holds "data" ms keyed) (λ t k.
          >>=-Holds AreKeyed IsKeyed (items_of lib opts t) _ (items_of-Holds t k) (λ vs ks.
            >>=-Holds AreKeyedGroups IsKeyed (groups_of lib opts vs) _ (groups_of-Holds vs ks)
              (λ gs g. g)))
