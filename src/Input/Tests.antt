-- ===== src/Input/Tests.antt =====
-- tsukuyomi/src/input/param.rs: lookups in the captures of a request, and a witness.
use tsukuyomi.Prelude.{
  ◌≡◌, ◌<◌, refl, Option, none, some, [], ◌∷◌, Bytes, codes, length, arith, List, err, true,
}
use tsukuyomi.Recognizer.Routes.{byte, any_segment, any_rest}
use tsukuyomi.Recognizer.Matching.{captured}
use tsukuyomi.Input.Cookies.{CookieCrate, jar, IsLoaded, jar-IsLoaded}
use tsukuyomi.Input.Params.{Params, get_param, named}
use tsukuyomi.Input.ParamsLaws.{get_param-captured}

get_param-captured_example :
    (v : Bytes) × (get_param
        (record {
          path = codes "/7";
          names = none;
          captures = captured 2 (byte b'/' ∷ any_segment ∷ []) (codes "/7") 0 none;
        })
        0
      ≡ some v)
    × (0 < length v)
get_param-captured_example =
    get_param-captured (byte b'/' ∷ any_segment ∷ []) (codes "/7") none 0 refl
      (refl, (omega arith, tt)) (omega arith)

-- What a request for `/a/b` of the route `/:id/*rest` captures.
abbrev rest_params : Params
rest_params = record {
  path = codes "/a/b";
  names = some (record { params = codes "id" ∷ codes "rest" ∷ []; has_wildcard = true });
  captures = captured 4 (byte b'/' ∷ any_segment ∷ byte b'/' ∷ any_rest ∷ []) (codes "/a/b") 0 none;
}

named_id : named rest_params (codes "id") ≡ some (codes "a")
unfolding named
named_id = refl

named_asterisk : named rest_params (codes "*") ≡ some (codes "b")
unfolding named
named_asterisk = refl

-- The catch-all is not found by its own name.
named_rest : named rest_params (codes "rest") ≡ none
unfolding named
named_rest = refl

-- Cookies that are texts, of which the empty one does not parse.
abbrev parse_text : Bytes → Option Bytes
parse_text [] = none
parse_text (c ∷ s) = some (c ∷ s)

abbrev texts : CookieCrate (List Bytes) Bytes
texts = record { new_jar = []; add_original = λ jar c. c ∷ jar; parse_encoded = parse_text }

abbrev same_text : Bytes → Option Bytes
same_text v = some v

jar-IsLoaded_example : IsLoaded texts same_text (jar texts same_text none (codes "a=1; ;b=2" ∷ []))
jar-IsLoaded_example = jar-IsLoaded texts same_text none (codes "a=1; ;b=2" ∷ [])

refused : jar texts same_text none (codes "a=1; ;b=2" ∷ []) ≡ (some (codes "a=1" ∷ []), err 400)
unfolding jar
refused = refl
