-- ===== src/Transformer.antt =====
-- internal/transformer/transformer.go: Transform, with its cache of compiled scripts and its pool of
-- runtimes. The JavaScript engine is a parameter.
pub mod Pooled
use vahak.Prelude.{
  ℕ, zero, suc, ◌≡◌, String, Bool, Option, none, some, List, [], ◌∷◌, str_eq, string_eq, lookup,
  insert, if◌then◌else◌,
}
use Prim.Native.String.{◌++◌}
use vahak.Store.Error.{Result, ok, err}

-- goja and encoding/json. `run` is told whether the interrupt comes before the program ends, and
-- gives none for an exception or an interrupt. Setting a global replaces what was set before.
pub record Js : Type 1 where
  pub Program : Type 0
  pub Vm : Type 0
  pub Value : Type 0
  pub Object : Type 0
  pub new_vm : Vm
  pub compile : String → Option Program
  pub unmarshal : String → Option Object
  pub set_payload : Option Object → Vm → Vm
  pub run : Bool → Program → Vm → Vm × Option Value
  pub marshal : Value → Option String
  pub set-set :
      (a b : Option Object) (vm : Vm) → set_payload a (set_payload b vm) ≡ set_payload a vm

pub data Failure : Type 0 where
  compile_error invalid_payload execution_failed marshal_failed : Failure

abbrev after_script : String
after_script =
    "\n\t\t\tif (typeof transform === 'function') {\n" ++ "\t\t\t\treturn transform(payload);\n"
    ++ "\t\t\t}\n" ++ "\t\t\treturn payload;\n" ++ "\t\t})(payload);\n\t"

-- The script in a function of the payload.
abbrev pub wrapped_script : String → String
wrapped_script script = "\n\t\t(function(payload) {\n\t\t\t" ++ script ++ after_script

-- What one call is given: the runtime that the pool picks, or none for a new one, and whether the
-- timer fires while the program runs.
pub record Turn : Type 0 where
  pub picked : Option ℕ
  pub interrupted : Bool

module _ (js : Js) where
  open js use {Program, Vm, Value, Object}

  -- The two globals of the package.
  pub record Transformer : Type 0 where
    pub script_cache : List (String × Program)
    pub vm_pool : List Vm

  -- sync.Pool's Get.
  unfoldable pub pick : ℕ → List Vm → Vm × List Vm
  pick n [] = (js.new_vm, [])
  pick zero (vm ∷ pool) = (vm, pool)
  pick (suc n) (vm ∷ pool) = let (picked, rest) = pick n pool in (picked, vm ∷ rest)

  unfoldable pub get_vm : Option ℕ → List Vm → Vm × List Vm
  unfolding pick
  get_vm none pool = (js.new_vm, pool)
  get_vm (some n) pool = pick n pool

  unfoldable pub compiled : String → Option Program → Transformer → Option Program × Transformer
  compiled script none t = (none, t)
  compiled script (some prog) t =
      (some prog, record t { script_cache = insert script prog t.script_cache })

  unfoldable pub get_compiled_script : String → Transformer → Option Program × Transformer
  unfolding compiled
  get_compiled_script script t = elim (lookup script t.script_cache) [
    | some prog ↦ (some prog, t)
    | none ↦ compiled script (js.compile (wrapped_script script)) t
  ]

  -- The deferred function.
  abbrev pub put_back : Vm → Transformer → Transformer
  put_back vm t = record t { vm_pool = js.set_payload none vm ∷ t.vm_pool }

  unfoldable pub encoded : Option Value → Result Failure String
  encoded none = err execution_failed
  encoded (some v) = elim (js.marshal v) [ none ↦ err marshal_failed | some out ↦ ok out ]

  -- The program on a runtime that was drawn.
  unfoldable pub run_on :
      Bool → Program → Option Object → Vm → Transformer → Result Failure String × Transformer
  unfolding encoded
  run_on cut prog none vm t = (err invalid_payload, put_back vm t)
  run_on cut prog (some payload) vm t =
      let (vm', value) = js.run cut prog (js.set_payload (some payload) vm) in
      (encoded value, put_back vm' t)

  unfoldable pub run_compiled :
      Turn → String → Option Program × Transformer → Result Failure String × Transformer
  unfolding run_on get_vm
  run_compiled turn payload (none, t) = (err compile_error, t)
  run_compiled turn payload (some prog, t) =
      let (vm, pool) = get_vm turn.picked t.vm_pool in
      run_on turn.interrupted prog (js.unmarshal payload) vm (record t { vm_pool = pool })

  unfoldable pub transform :
      Turn → String → String → Transformer → Result Failure String × Transformer
  unfolding run_compiled get_compiled_script
  transform turn script payload t =
      if str_eq script ""
      then (ok payload, t)
      else run_compiled turn payload (get_compiled_script script t)

  -- Calls one after the other, with their answers.
  unfoldable pub transform_all :
      List (Turn × String × String) → Transformer → List (Result Failure String) × Transformer
  unfolding transform
  transform_all [] t = ([], t)
  transform_all ((turn, script, payload) ∷ calls) t =
      let (answer, t') = transform turn script payload t in
      let (answers, t'') = transform_all calls t' in (answer ∷ answers, t'')
