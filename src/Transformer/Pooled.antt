-- ===== src/Transformer/Pooled.antt =====
-- The cache and the pool do not show (internal/transformer/transformer.go).
use vahak.Prelude.{
  ℕ, zero, suc, ◌≡◌, refl, sym, ap, ◌∙◌, inl, inr, String, Bool, Option, none, some, List, [], ◌∷◌,
  map, All, str_eq, eq_iff, string_eq, lookup, lookup-insert, Bool-cases, Option-cases,
  if◌then◌else◌, arith,
}
use vahak.Store.Error.{Result, ok, err}
use vahak.Transformer.{
  Js, Failure, invalid_payload, compile_error, wrapped_script, Turn, Transformer, pick, get_vm,
  compiled, get_compiled_script, encoded, run_on, run_compiled, transform, transform_all,
}

module _ (js : Js) where
  open js use {Program, Vm, Value, Object}

  -- The program leaves a new runtime as it found it, but for the payload.
  abbrev pub LeavesNoTrace : Program → Type 0
  LeavesNoTrace prog =
      (cut : Bool) (payload : Object)
      → js.set_payload none (js.run cut prog (js.set_payload (some payload) js.new_vm)).0
        ≡ js.set_payload none js.new_vm

  abbrev pub IsTidy : String → Type 0
  IsTidy script =
      (prog : Program) → js.compile (wrapped_script script) ≡ some prog → LeavesNoTrace prog

  -- The answer with neither: the script is compiled and run on a new runtime.
  abbrev pub run_fresh : Bool → Option Program → Option Object → Result Failure String
  run_fresh cut none payload = err compile_error
  run_fresh cut (some prog) none = err invalid_payload
  run_fresh cut (some prog) (some payload) =
      encoded js (js.run cut prog (js.set_payload (some payload) js.new_vm)).1

  abbrev pub transform_fresh : Turn × String × String → Result Failure String
  transform_fresh (turn, script, payload) =
      if str_eq script ""
      then ok payload
      else run_fresh turn.interrupted (js.compile (wrapped_script script)) (js.unmarshal payload)

  -- A runtime that is new but for the payload.
  abbrev IsIdle : Vm → Type 0
  IsIdle vm = (a : Option Object) → js.set_payload a vm ≡ js.set_payload a js.new_vm

  record IsClean (t : Transformer js) : Type 0 where
    cache_right :
        (script : String) (prog : Program)
        → lookup script t.script_cache ≡ some prog
        → js.compile (wrapped_script script) ≡ some prog
    pool_idle : All IsIdle t.vm_pool

  back-IsIdle :
      (vm : Vm)
      → js.set_payload none vm ≡ js.set_payload none js.new_vm
      → IsIdle (js.set_payload none vm)
  back-IsIdle vm e a = ap (js.set_payload a) e ∙ js.set-set a none js.new_vm

  pick-IsIdle :
      (n : ℕ) (pool : List Vm)
      → All IsIdle pool
      → IsIdle (pick js n pool).0 × All IsIdle (pick js n pool).1
  unfolding pick
  pick-IsIdle n [] idle = (λ a. refl, tt)
  pick-IsIdle zero (vm ∷ pool) (i, idle) = (i, idle)
  pick-IsIdle (suc n) (vm ∷ pool) (i, idle) =
      let (picked, rest) = pick-IsIdle n pool idle in (picked, (i, rest))

  get_vm-IsIdle :
      (n : Option ℕ) (pool : List Vm)
      → All IsIdle pool
      → IsIdle (get_vm js n pool).0 × All IsIdle (get_vm js n pool).1
  unfolding get_vm
  get_vm-IsIdle none pool idle = (λ a. refl, idle)
  get_vm-IsIdle (some n) pool idle = pick-IsIdle n pool idle

  run_on-IsClean :
      (cut : Bool) (prog : Program) (payload : Option Object) (vm : Vm) (t : Transformer js)
      → IsIdle vm
      → LeavesNoTrace prog
      → IsClean t
      → ((run_on js cut prog payload vm t).0 ≡ run_fresh cut (some prog) payload)
        × IsClean (run_on js cut prog payload vm t).1
  unfolding run_on
  run_on-IsClean cut prog none vm t i tidy clean = (
    refl,
    record {
      cache_right = clean.cache_right;
      pool_idle = (back-IsIdle vm (i none), clean.pool_idle);
    },
  )
  run_on-IsClean cut prog (some payload) vm t i tidy clean =
      let same = ap (js.run cut prog) (i (some payload)) in
      (
        ap (λ r. encoded js r.1) same,
        record {
          cache_right = clean.cache_right;
          pool_idle = (
            back-IsIdle _ (ap (λ r. js.set_payload none r.0) same ∙ tidy cut payload),
            clean.pool_idle,
          );
        },
      )

  compiled-IsClean :
      (script : String) (answer : Option Program) (t : Transformer js)
      → js.compile (wrapped_script script) ≡ answer
      → IsClean t
      → ((compiled js script answer t).0 ≡ answer) × IsClean (compiled js script answer t).1
  unfolding compiled
  compiled-IsClean script none t e clean = (refl, clean)
  compiled-IsClean script (some prog) t e clean = (
    refl,
    record {
      cache_right = λ other p h. elim (Bool-cases (str_eq script other)) [
        | inl same ↦
            ground (arith, eq_iff script other, lookup-insert script other prog t.script_cache)
        | inr differ ↦
            clean.cache_right other p
              (sym (lookup-insert script other prog t.script_cache ∙ rw differ refl) ∙ h)
      ];
      pool_idle = clean.pool_idle;
    },
  )

  get_compiled-IsClean :
      (script : String) (t : Transformer js)
      → IsClean t
      → ((get_compiled_script js script t).0 ≡ js.compile (wrapped_script script))
        × IsClean (get_compiled_script js script t).1
  unfolding get_compiled_script
  get_compiled-IsClean script t clean = elim (Option-cases (lookup script t.script_cache)) [
    | inl miss ↦
        rw (miss, get_compiled_script)
          (compiled-IsClean script (js.compile (wrapped_script script)) t refl clean)
    | inr (prog, hit) ↦
        rw (hit, get_compiled_script) (sym (clean.cache_right script prog hit), clean)
  ]

  run_compiled-IsClean :
      (turn : Turn) (payload : String) (answer : Option Program) (t : Transformer js)
      → ((prog : Program) → answer ≡ some prog → LeavesNoTrace prog)
      → IsClean t
      → ((run_compiled js turn payload (answer, t)).0
          ≡ run_fresh turn.interrupted answer (js.unmarshal payload))
        × IsClean (run_compiled js turn payload (answer, t)).1
  unfolding run_compiled
  run_compiled-IsClean turn payload none t tidy clean = (refl, clean)
  run_compiled-IsClean turn payload (some prog) t tidy clean =
      let (idle, rest) = get_vm-IsIdle turn.picked t.vm_pool clean.pool_idle in
      run_on-IsClean turn.interrupted prog (js.unmarshal payload)
        (get_vm js turn.picked t.vm_pool).0
        (record t { vm_pool = (get_vm js turn.picked t.vm_pool).1 }) idle (tidy prog refl)
        (record { cache_right = clean.cache_right; pool_idle = rest })

  transform-IsClean :
      (turn : Turn) (script payload : String) (t : Transformer js)
      → IsTidy script
      → IsClean t
      → ((transform js turn script payload t).0 ≡ transform_fresh (turn, script, payload))
        × IsClean (transform js turn script payload t).1
  unfolding transform
  transform-IsClean turn script payload t tidy clean =
      let found = get_compiled_script js script t in
      let (right, kept) = get_compiled-IsClean script t clean in
      let (same, after) =
        run_compiled-IsClean turn payload found.0 found.1 (λ prog h. tidy prog (sym right ∙ h))
          kept in
      elim (Bool-cases (str_eq script "")) [
        | inl e ↦ rw e (refl, clean)
        | inr e ↦
            rw e (same ∙ ap (λ p. run_fresh turn.interrupted p (js.unmarshal payload)) right, after)
      ]

  transform_all-IsClean :
      (calls : List (Turn × String × String)) (t : Transformer js)
      → All (λ call. IsTidy call.1) calls
      → IsClean t
      → (transform_all js calls t).0 ≡ map transform_fresh calls
  unfolding transform_all
  transform_all-IsClean [] t tidy clean = refl
  transform_all-IsClean ((turn, script, payload) ∷ calls) t (tidy, others) clean =
      let (right, kept) = transform-IsClean turn script payload t tidy clean in
      let next = (transform js turn script payload t).1 in
      ap (λ a. a ∷ (transform_all js calls next).0) right
      ∙ ap (λ rest. transform_fresh (turn, script, payload) ∷ rest)
          (transform_all-IsClean calls next others kept)

  abbrev pub no_transformer : Transformer js
  no_transformer = record { script_cache = []; vm_pool = [] }

  -- From the start of the process on, a sequence of calls of Transform gives the answers that it
  -- would give without the cache of compiled scripts and without the pool of runtimes, whichever
  -- runtimes the pool picks and whichever calls the timer interrupts, provided that no script of
  -- the sequence leaves a trace in a runtime other than the payload.
  pub transform_all-fresh :
      (calls : List (Turn × String × String))
      → All (λ call. IsTidy call.1) calls
      → (transform_all js calls no_transformer).0 ≡ map transform_fresh calls
  unfolding lookup
  transform_all-fresh calls tidy =
      transform_all-IsClean calls no_transformer tidy
        (record { cache_right = λ script prog h. absurd (cc h); pool_idle = tt })
