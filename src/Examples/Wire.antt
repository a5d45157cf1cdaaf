-- ===== src/Examples/Wire.antt =====
-- A codec on lists of numbers: a tag and a length stand before what they are about.
use toychain.Prelude.{
  ◌==◌, if◌then◌else◌, ℕ, zero, suc, ◌≡◌, refl, ap, ◌∙◌, sym, List, [], ◌∷◌, ◌++◌, length, map,
  Bytes,
}
use toychain.Prelude.Int.{ℤ, pos, negsuc}
use toychain.Outcome.{Outcome, ok, err, library, ok_injective}
use toychain.BigInt
use toychain.Types.Value.{
  Value, nil, other, address, string, bytes, uint64, int64, float64, big_int,
}
use toychain.Types.Transaction.{Field, value, list, carried, IsWire}
use toychain.Types.Codec.{Cbor}

-- What the codec makes of a single value.
abbrev pub wire : Value → Value
wire (address a) = string a
wire (big_int x) = bytes (BigInt.bytes x)
wire v = v

pub wire-IsWire : IsWire wire
wire-IsWire = record {
  wire_address = λ a. refl;
  wire_string = λ s. refl;
  wire_uint64 = λ n. refl;
  wire_big_int = λ x. refl;
  wire_nil = refl;
}

abbrev put_bytes : Bytes → Bytes → Bytes
put_bytes a rest = length a ∷ (a ++ rest)

abbrev split : ℕ → Bytes → Bytes × Bytes
split zero l = ([], l)
split (suc n) [] = ([], [])
split (suc n) (x ∷ l) = let (a, rest) = split n l in (x ∷ a, rest)

abbrev get_bytes : Bytes → Bytes × Bytes
get_bytes [] = ([], [])
get_bytes (n ∷ l) = split n l

abbrev put_int : ℤ → Bytes → Bytes
put_int (pos n) rest = 0 ∷ n ∷ rest
put_int (negsuc n) rest = 1 ∷ n ∷ rest

abbrev get_int : Bytes → ℤ × Bytes
get_int (sign ∷ n ∷ rest) = (if sign == 0 then pos n else negsuc n, rest)
get_int l = (pos 0, l)

abbrev put_value : Value → Bytes → Bytes
put_value nil rest = 0 ∷ rest
put_value other rest = 1 ∷ rest
put_value (address a) rest = 2 ∷ put_bytes a rest
put_value (string s) rest = 3 ∷ put_bytes s rest
put_value (bytes b) rest = 4 ∷ put_bytes b rest
put_value (uint64 n) rest = 5 ∷ n ∷ rest
put_value (int64 x) rest = 6 ∷ put_int x rest
put_value (float64 x) rest = 7 ∷ put_int x rest
put_value (big_int x) rest = 8 ∷ put_int x rest

abbrev get_number : Bytes → Value × Bytes
get_number (n ∷ l) = (uint64 n, l)
get_number [] = (nil, [])

abbrev as_value : {A : Type 0} → (A → Value) → A × Bytes → Value × Bytes
as_value make (x, rest) = (make x, rest)

abbrev get_tagged : ℕ → Bytes → Value × Bytes
get_tagged tag l =
    if tag == 0
    then (nil, l)
    else if tag == 1
    then (other, l)
    else if tag == 2
    then as_value address (get_bytes l)
    else if tag == 3
    then as_value string (get_bytes l)
    else if tag == 4
    then as_value bytes (get_bytes l)
    else if tag == 5
    then get_number l
    else if tag == 6
    then as_value int64 (get_int l)
    else if tag == 7
    then as_value float64 (get_int l)
    else as_value big_int (get_int l)

abbrev get_value : Bytes → Value × Bytes
get_value [] = (nil, [])
get_value (tag ∷ l) = get_tagged tag l

abbrev put_values : List Value → Bytes → Bytes
put_values [] rest = rest
put_values (v ∷ vs) rest = put_value v (put_values vs rest)

abbrev get_values : ℕ → Bytes → List Value × Bytes
get_values zero l = ([], l)
get_values (suc n) l =
    let (v, l') = get_value l in let (vs, rest) = get_values n l' in (v ∷ vs, rest)

abbrev put_field : Field → Bytes → Bytes
put_field (value v) rest = 0 ∷ put_value v rest
put_field (list vs) rest = 1 ∷ length vs ∷ put_values vs rest

abbrev get_list : Bytes → Field × Bytes
get_list [] = (list [], [])
get_list (n ∷ l) = let (vs, rest) = get_values n l in (list vs, rest)

abbrev get_single : Bytes → Field × Bytes
get_single l = let (v, rest) = get_value l in (value v, rest)

abbrev get_field : Bytes → Field × Bytes
get_field [] = (list [], [])
get_field (tag ∷ l) = if tag == 0 then get_single l else get_list l

abbrev put_fields : List Field → Bytes
put_fields [] = []
put_fields (f ∷ fs) = put_field f (put_fields fs)

abbrev get_fields : ℕ → Bytes → List Field
get_fields zero l = []
get_fields (suc n) l = let (f, rest) = get_field l in f ∷ get_fields n rest

split-append : (a rest : Bytes) → split (length a) (a ++ rest) ≡ (a, rest)
split-append [] rest = refl
split-append (x ∷ a) rest = ap (λ r. (x ∷ r.0, r.1)) (split-append a rest)

get_int-put_int : (x : ℤ) (rest : Bytes) → get_int (put_int x rest) ≡ (x, rest)
get_int-put_int (pos n) rest = refl
get_int-put_int (negsuc n) rest = refl

get_value-put_value : (v : Value) (rest : Bytes) → get_value (put_value v rest) ≡ (v, rest)
get_value-put_value nil rest = refl
get_value-put_value other rest = refl
get_value-put_value (address a) rest = ap (as_value address) (split-append a rest)
get_value-put_value (string a) rest = ap (as_value string) (split-append a rest)
get_value-put_value (bytes a) rest = ap (as_value bytes) (split-append a rest)
get_value-put_value (uint64 n) rest = refl
get_value-put_value (int64 x) rest = ap (as_value int64) (get_int-put_int x rest)
get_value-put_value (float64 x) rest = ap (as_value float64) (get_int-put_int x rest)
get_value-put_value (big_int x) rest = ap (as_value big_int) (get_int-put_int x rest)

get_values-put_values :
    (vs : List Value) (rest : Bytes) → get_values (length vs) (put_values vs rest) ≡ (vs, rest)
get_values-put_values [] rest = refl
get_values-put_values (v ∷ vs) rest =
    rw (get_value-put_value v (put_values vs rest), get_values-put_values vs rest)

get_field-put_field : (f : Field) (rest : Bytes) → get_field (put_field f rest) ≡ (f, rest)
get_field-put_field (value v) rest = ap (λ r. (value r.0, r.1)) (get_value-put_value v rest)
get_field-put_field (list vs) rest = ap (λ r. (list r.0, r.1)) (get_values-put_values vs rest)

get_fields-put_fields : (fs : List Field) → get_fields (length fs) (put_fields fs) ≡ fs
get_fields-put_fields [] = refl
get_fields-put_fields (f ∷ fs) =
    rw (get_field-put_field f (put_fields fs), get_fields-put_fields fs)

abbrev read_dumped : Bytes → Outcome (List Field)
read_dumped [] = err (library 5)
read_dumped (n ∷ l) = ok (map (carried wire) (get_fields n l))

abbrev pub cbor : Cbor
cbor = record {
  dump = λ fs. ok (length fs ∷ put_fields fs);
  decode = read_dumped;
  wrap = λ fs. ok (put_fields fs);
  decode_into_block = λ b. err (library 5);
}

-- The codec decodes what it dumped.
pub decode-dump :
    (fs : List Field) (b : Bytes) → cbor.dump fs ≡ ok b → cbor.decode b ≡ ok (map (carried wire) fs)
decode-dump fs b h =
    ap read_dumped (sym (ok_injective h))
    ∙ ap (λ l. ok (map (carried wire) l)) (get_fields-put_fields fs)
