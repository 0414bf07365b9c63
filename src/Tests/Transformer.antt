-- ===== src/Tests/Transformer.antt =====
-- The transformer with an engine whose programs are texts.
use vahak.Prelude.{
  ◌≡◌, refl, String, true, false, Option, none, some, List, [], ◌∷◌, map, str_eq, if◌then◌else◌,
}
use vahak.Transformer.{Js, Turn, transform_all}
use vahak.Transformer.Pooled.{no_transformer, transform_fresh, transform_all-fresh}

-- A runtime is its payload. Each program gives the payload back, unless it is interrupted.
abbrev js : Js
js = record {
  Program = String;
  Vm = Option String;
  Value = String;
  Object = String;
  new_vm = none;
  compile = λ text. some text;
  unmarshal = λ text. if str_eq text "" then none else some text;
  set_payload = λ payload vm. payload;
  run = λ cut prog vm. (vm, if cut then none else vm);
  marshal = λ value. some value;
  set-set = λ a b vm. refl;
}

abbrev new_turn : Turn
new_turn = record { picked = none; interrupted = false }

abbrev pooled_turn : Turn
pooled_turn = record { picked = some 0; interrupted = true }

abbrev calls : List (Turn × String × String)
calls = (new_turn, "payload.a = 1", "{}") ∷ (pooled_turn, "payload.a = 1", "{}") ∷ []

transform_all-fresh_example :
    (transform_all js calls (no_transformer js)).0 ≡ map (transform_fresh js) calls
transform_all-fresh_example =
    transform_all-fresh js calls ((λ prog h cut payload. refl), ((λ prog h cut payload. refl), tt))
