-- ===== src/Step/Sound/Stack.antt =====
-- PUSH, DUP, SWAP and LOG keep the stack within its limit and the memory whole.
use solenoid.Base.{
  ℕ, zero, suc, ◌≡◌, ◌∙◌, refl, Option, none, some, List, [], ◌∷◌, ◌++◌, arith, length, set, get_or,
  length-set,
}
use solenoid.Primitives.{Primitives}
use solenoid.Types.{Log}
use solenoid.Machine.{modify_evm, pop}
use solenoid.Evm.{error}
use solenoid.Machine.Keeps.{Keeps, Keeps-bind, Keeps-pure}
use solenoid.Instr.Frame.{Frame}
use solenoid.Instr.Stack
use solenoid.Step.Sound.{IsSound, pop-IsSound, sound_rules, modify_evm-IsSound}

need_stack-IsSound : (n : ℕ) → Keeps IsSound (Stack.need_stack n)
unfolding Stack.need_stack error
need_stack-IsSound n = record { at = λ s h. ground arith }

length-swap_top : (n : ℕ) (stack : List ℕ) → length (Stack.swap_top n stack) ≡ length stack
unfolding Stack.swap_top
length-swap_top n stack =
    length-set (set stack 0 (get_or stack n 0)) n (get_or stack 0 0)
    ∙ length-set stack 0 (get_or stack n 0)

swap_top-IsSound :
    (n : ℕ) → Keeps IsSound (modify_evm (λ evm. record evm { stack = Stack.swap_top n evm.stack }))
unfolding modify_evm
swap_top-IsSound n = record { at = λ s h. ground (arith, length-swap_top n s.evm.stack) }

add_log-IsSound :
    (l : Log) → Keeps IsSound (modify_evm (λ evm. record evm { logs = evm.logs ++ l ∷ [] }))
add_log-IsSound l = modify_evm-IsSound _ (λ evm. refl) (λ evm. refl)

log_data-IsSound :
    (offset size : ℕ) (memory : List ℕ) → Keeps IsSound (Stack.log_data offset size memory)
unfolding Stack.log_data
log_data-IsSound offset size memory = search sound_rules depth 24

pop_many-IsSound : (n : ℕ) → Keeps IsSound (Stack.pop_many n)
unfolding Stack.pop_many
pop_many-IsSound zero = search sound_rules
pop_many-IsSound (suc n) =
    Keeps-bind pop _ pop-IsSound
      λ w. Keeps-bind (Stack.pop_many n) _ (pop_many-IsSound n) λ rest. Keeps-pure (w ∷ rest)

or_missing-IsSound : (o : Option (List ℕ)) → Keeps IsSound (Stack.or_missing o)
unfolding Stack.or_missing
or_missing-IsSound none = search sound_rules
or_missing-IsSound (some arg) = search sound_rules

pub push0-IsSound : Keeps IsSound Stack.push0
unfolding Stack.push0
push0-IsSound = search sound_rules depth 24

module _ (f : Frame) where
  pub dup-IsSound : Keeps IsSound (Stack.dup f)
  unfolding Stack.dup
  dup-IsSound = search (sound_rules, need_stack-IsSound) depth 24

  pub swap-IsSound : Keeps IsSound (Stack.swap f)
  unfolding Stack.swap
  swap-IsSound = search (sound_rules, need_stack-IsSound, swap_top-IsSound) depth 24

module _ ⦃prim : Primitives⦄ (f : Frame) where
  pub push_n-IsSound : Keeps IsSound (Stack.push_n f)
  unfolding Stack.push_n
  push_n-IsSound = search (sound_rules, or_missing-IsSound) depth 24

  pub log-IsSound : Keeps IsSound (Stack.log f)
  unfolding Stack.log
  log-IsSound = search (sound_rules, pop_many-IsSound, log_data-IsSound, add_log-IsSound) depth 30
