-- ===== src/Ast/Decoder/Decoded.antt =====
-- ast.py, `ReQLDecoder`: what is decoded.
use rethinkdb_python.Base.{Bool, true, false, String, Option, none, some, if◌then◌else◌, str_eq}
use rethinkdb_python.Base.Exec.{Outcome, ok}
use rethinkdb_python.Base.Outcome.{Holds, >>=-Holds}
use rethinkdb_python.Errors.{Exn}
use rethinkdb_python.Ast.Decoder.{
  Value, null, atom, text, list, object, groups, tuple, frozen_object, frozen_groups, Values,
  no_values, value, Members, no_members, member, Library, FormatOpts, get, convert_time,
  convert_binary, convert_grouped_data, by_format, convert_type, convert_as, convert_pseudotype,
  decode, decode_all, decode_members,
}
use rethinkdb_python.Ast.Decoder.Keys.{
  IsKeyed, AreKeyed, AreKeyedMembers, IsSound, convert_time-Holds, convert_binary-Holds,
  convert_grouped_data-Holds,
}

Holds-if :
    {A : Type 0} (P : A → Type 0) (b : Bool) (x y : Outcome Exn A)
    → Holds P x
    → Holds P y
    → Holds P (if b then x else y)
Holds-if P true x y p q = p
Holds-if P false x y p q = q

module _ {D : Type 0} where
  -- What a JSON text can hold.
  unfoldable mutual
    pub IsJson : Value D → Type 0
    IsJson null = Unit
    IsJson (atom d) = Unit
    IsJson (text t) = Unit
    IsJson (list vs) = AreJson vs
    IsJson (object ms) = AreJsonMembers ms
    IsJson _ = ⊥

    pub AreJson : Values D → Type 0
    AreJson no_values = Unit
    AreJson (value v vs) = IsJson v × AreJson vs

    pub AreJsonMembers : Members D → Type 0
    AreJsonMembers no_members = Unit
    AreJsonMembers (member k v ms) = IsJson v × AreJsonMembers ms

  module _ (lib : Library D) (opts : FormatOpts) (sound : IsSound lib) where
    by_format-Holds :
        (f : Option String) (native : Outcome Exn (Value D)) (ms : Members D)
        → Holds IsKeyed native
        → AreKeyedMembers ms
        → Holds IsKeyed (by_format lib opts f native ms)
    unfolding by_format IsKeyed
    by_format-Holds none native ms h keyed = h
    by_format-Holds (some f) native ms h keyed =
        Holds-if IsKeyed (str_eq f "native") native _ h
          (Holds-if IsKeyed (str_eq f "raw") (ok (object ms)) _ keyed tt)

    convert_type-Holds :
        (t : String) (ms : Members D)
        → AreKeyedMembers ms
        → Holds IsKeyed (convert_type lib opts t ms)
    unfolding convert_type IsKeyed
    convert_type-Holds t ms keyed =
        Holds-if IsKeyed (str_eq t "TIME") _ _
          (by_format-Holds opts.time_format (convert_time lib opts ms) ms
            (convert_time-Holds lib opts sound ms keyed) keyed)
          (Holds-if IsKeyed (str_eq t "GROUPED_DATA") _ _
            (by_format-Holds opts.group_format (convert_grouped_data lib opts ms) ms
              (convert_grouped_data-Holds lib opts sound ms keyed) keyed)
            (Holds-if IsKeyed (str_eq t "GEOMETRY") (ok (object ms)) _ keyed (
              Holds-if IsKeyed (str_eq t "BINARY") _ _
                (by_format-Holds opts.binary_format (convert_binary lib opts ms) ms
                  (convert_binary-Holds lib opts sound ms keyed) keyed)
                tt)))

    convert_pseudotype-Holds :
        (ms : Members D) → AreKeyedMembers ms → Holds IsKeyed (convert_pseudotype lib opts ms)
    unfolding convert_pseudotype convert_as IsKeyed
    convert_pseudotype-Holds ms keyed = go (get "$reql_type$" ms)
      where
        go : (o : Option (Value D)) → Holds IsKeyed (convert_as lib opts o ms)
        go none = keyed
        go (some null) = keyed
        go (some (text t)) = convert_type-Holds t ms keyed
        go (some (atom d)) = tt
        go (some (list vs)) = tt
        go (some (object us)) = tt
        go (some (groups gs)) = tt
        go (some (tuple vs)) = tt
        go (some (frozen_object us)) = tt
        go (some (frozen_groups gs)) = tt

    mutual
      unfolding decode decode_all decode_members IsJson AreJson AreJsonMembers IsKeyed AreKeyed
          AreKeyedMembers

      decode-IsKeyed : (v : Value D) → IsJson v → Holds IsKeyed (decode lib opts v)
      decode-IsKeyed null j = tt
      decode-IsKeyed (atom d) j = tt
      decode-IsKeyed (text t) j = tt
      decode-IsKeyed (list vs) j =
          >>=-Holds AreKeyed IsKeyed (decode_all lib opts vs) _ (decode_all-AreKeyed vs j)
            (λ us k. k)
      decode-IsKeyed (object ms) j =
          >>=-Holds AreKeyedMembers IsKeyed (decode_members lib opts ms) _
            (decode_members-AreKeyedMembers ms j) convert_pseudotype-Holds
      decode-IsKeyed (groups gs) j = absurd j
      decode-IsKeyed (tuple vs) j = absurd j
      decode-IsKeyed (frozen_object ms) j = absurd j
      decode-IsKeyed (frozen_groups gs) j = absurd j

      decode_all-AreKeyed : (vs : Values D) → AreJson vs → Holds AreKeyed (decode_all lib opts vs)
      decode_all-AreKeyed no_values j = tt
      decode_all-AreKeyed (value v vs) (j, js) =
          >>=-Holds IsKeyed AreKeyed (decode lib opts v) _ (decode-IsKeyed v j) (λ u k.
            >>=-Holds AreKeyed AreKeyed (decode_all lib opts vs) _ (decode_all-AreKeyed vs js)
              (λ us ks. (k, ks)))

      decode_members-AreKeyedMembers :
          (ms : Members D) → AreJsonMembers ms → Holds AreKeyedMembers (decode_members lib opts ms)
      decode_members-AreKeyedMembers no_members j = tt
      decode_members-AreKeyedMembers (member k v ms) (j, js) =
          >>=-Holds IsKeyed AreKeyedMembers (decode lib opts v) _ (decode-IsKeyed v j) (λ u h.
            >>=-Holds AreKeyedMembers AreKeyedMembers (decode_members lib opts ms) _
              (decode_members-AreKeyedMembers ms js) (λ us hs. (h, hs)))

    -- Whatever the server sends and whatever the formats are, the keys of all grouped data in what is
    -- decoded can be hashed, at any depth. The condition is that what Python unpacks, or iterates over,
    -- that is no list, gives such values too.
    pub decode_groups : (v : Value D) → IsJson v → Holds IsKeyed (decode lib opts v)
    decode_groups v j = decode-IsKeyed v j
