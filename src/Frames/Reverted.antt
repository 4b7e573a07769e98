-- ===== src/Frames/Reverted.antt =====
-- A call of src/executor.rs whose frame reverts.
use solenoid.Base.{
  ℕ, ◌+◌, ◌-◌, ◌<◌, ◌≡◌, refl, ap, sym, subst, ◌∙◌, true, false, some, List, ◌∷◌, length, min, ltb,
  arith,
}
use solenoid.Base.Int.{pos}
use solenoid.Primitives.{Primitives, two256}
use solenoid.Outcome.{Outcome, ok, Done}
use solenoid.Word.{Word}
use solenoid.Event.{EventData, AccountEvent, event}
use solenoid.Decoder.{decode}
use solenoid.Ext.{Account, Ext}
use solenoid.Evm.{stack_limit}
use solenoid.Evm.Revert.{revert}
use solenoid.Evm.Revert.Observed.{observed}
use solenoid.Evm.Revert.Journal.{Journal, revert-Journal}
use solenoid.Machine.{Machine, Action, ◌>>=◌, ◌>>◌, on_ext, modify_evm, trace, push, set_ret}
use solenoid.Machine.Run.{run_ok}
use solenoid.Step.Binary.{push_run}
use solenoid.Instr.Frame.{Frame, this_address}
use solenoid.Frames.Report.{report_cost}
use solenoid.Frames.Inner.{
  Runner, Inner, inner_machine, inner_result, run_inner, join_trace, extend_touches, surviving,
}
use solenoid.Frames.Transfer.{call_transfer}
use solenoid.Frames.Transfer.Moves.{value_of, moved, call_transfer-IsTransfer}
use solenoid.Frames.Call.Contract.{
  Called, inner_call, copy_back, pay_inner, settle_call, call_contract,
}

-- The call answers 0 and leads back to a world state that looks like this one.
pub record IsUndone (first : Ext) (s : Machine) (after : Outcome Done × Machine) : Type 0 where
  pub succeeds : after.0 ≡ ok tt
  pub answered : after.1.evm.stack ≡ 0 ∷ s.evm.stack
  pub restored : observed after.1.ext ≡ observed first

module _ ⦃prim : Primitives⦄ where
  -- `settle_call` of a frame that reverted, behind the push.
  abbrev undo_inner : Inner → Action Done
  undo_inner inner = on_ext (revert inner.evm) >> extend_touches (surviving inner.evm.touches)

  abbrev refused : Inner → Machine → Machine
  refused inner s = record s {
    exec = record s.exec { ret = inner.ret };
    evm = record s.evm { refund = s.evm.gas.refunded; stack = 0 ∷ s.evm.stack };
  }

  undo_inner-IsUndone :
      {first : Ext} (inner : Inner) (s : Machine) (stack : List Word)
      → s.evm.stack ≡ 0 ∷ stack
      → Journal first inner.evm.touches s.ext
      → ((undo_inner inner s).0 ≡ ok tt)
        × ((undo_inner inner s).1.evm.stack ≡ 0 ∷ stack)
        × (observed (undo_inner inner s).1.ext ≡ observed first)
  unfolding on_ext extend_touches modify_evm
  undo_inner-IsUndone inner s stack top j =
      let undone = revert-Journal inner.evm j in
      let went : (revert inner.evm s.ext).0 ≡ ok tt = ap (λ r. r.0) undone in
      rw
        (run_ok (on_ext (revert inner.evm)) (λ _. extend_touches (surviving inner.evm.touches)) s
          (record s { ext = (revert inner.evm s.ext).1 }) tt
          (ap (λ (o : Outcome Done). (o, record s { ext = (revert inner.evm s.ext).1 })) went))
        (refl, top, ap (λ r. r.1) undone)

  settle_call_run :
      (inner : Inner) (s : Machine)
      → inner.evm.reverted ≡ true
      → length s.evm.stack < stack_limit
      → settle_call inner s ≡ undo_inner inner (refused inner s)
  unfolding settle_call modify_evm set_ret revert
  settle_call_run inner s reverted room =
      let noted : Machine = record s {
        exec = record s.exec { ret = inner.ret };
        evm = record s.evm { refund = s.evm.gas.refunded };
      } in
      rw (settle_call, reverted)
        (run_ok (push 0) (λ _. undo_inner inner) noted (refused inner s) tt (push_run noted 0 room))

  -- When the frame of a call reverts, the call answers 0 and takes back what the frame did.
  settle_call-IsUndone :
      {first : Ext} (inner : Inner) (s : Machine)
      → inner.evm.reverted ≡ true
      → length s.evm.stack < stack_limit
      → Journal first inner.evm.touches s.ext
      → IsUndone first s (settle_call inner s)
  settle_call-IsUndone inner s reverted room j =
      let undone = undo_inner-IsUndone inner (refused inner s) s.evm.stack refl j in
      rw (settle_call_run inner s reverted room)
        (record { succeeds = undone.0; answered = undone.1; restored = undone.2 })

  -- The parts of `call_contract` behind the frame.
  abbrev finish_call : Frame → Called → Inner → Action Done
  finish_call f c inner =
      report_cost f c.traced (pos 0)
      >> (join_trace inner
          >> (copy_back c.args inner.ret
              >> (modify_evm (pay_inner inner.evm.gas.used c.stipend) >> settle_call inner)))

  copy_back_none :
      (f : Called) (ret : List ℕ) (s : Machine)
      → f.args.ret_size ≡ 0
      → copy_back f.args ret s ≡ (ok tt, s)
  unfolding copy_back
  copy_back_none f ret s none_back =
      let nothing : ltb 0 (min (length ret) f.args.ret_size) ≡ false = ground arith in
      rw (copy_back, nothing) refl

  -- The caller once it has paid for the frame.
  abbrev paid : Frame → Called → Inner → Machine → Machine
  paid f c inner s =
      let joined = (join_trace inner (report_cost f c.traced (pos 0) s).1).1 in
      record joined { evm = pay_inner inner.evm.gas.used c.stipend s.evm }

  finish_call_run :
      (f : Frame) (c : Called) (inner : Inner) (s : Machine)
      → c.args.ret_size ≡ 0
      → finish_call f c inner s ≡ settle_call inner (paid f c inner s)
  unfolding report_cost join_trace modify_evm trace
  finish_call_run f c inner s none_back =
      let joined = (join_trace inner (report_cost f c.traced (pos 0) s).1).1 in
      run_ok (copy_back c.args inner.ret)
        (λ _. modify_evm (pay_inner inner.evm.gas.used c.stipend) >> settle_call inner) joined
        joined tt (copy_back_none c inner.ret joined none_back)

  finish_call-IsUndone :
      {first : Ext} (f : Frame) (c : Called) (inner : Inner) (s : Machine)
      → c.args.ret_size ≡ 0
      → inner.evm.reverted ≡ true
      → length s.evm.stack < stack_limit
      → Journal first inner.evm.touches s.ext
      → IsUndone first s (finish_call f c inner s)
  unfolding report_cost join_trace trace
  finish_call-IsUndone f c inner s none_back reverted room j =
      let undone = settle_call-IsUndone inner (paid f c inner s) reverted room j in
      rw (finish_call_run f c inner s none_back) (record {
        succeeds = undone.succeeds;
        answered = undone.answered;
        restored = undone.restored;
      })

  -- The machine of the caller when the frame starts: the value has moved, and the code is reported.
  abbrev transferred : Frame → Called → Machine → Outcome Done × Machine
  transferred f c s =
      call_transfer f.ctx.call_type f.ctx.depth (this_address f) c.args.address c.args.value s

  abbrev report_code : Frame → Called → Action Done
  report_code f c = trace (
      event
        (EventData.account (AccountEvent.get_code c.args.address c.hash (decode c.code).bytecode))
        f.ctx.depth false)

  abbrev pub called : Frame → Called → Machine → Machine
  called f c s = (report_code f c (transferred f c s).1).1

  abbrev run_called : Runner → Frame → Called → Action Done
  run_called run f c =
      run_inner run (decode c.code) (inner_call f c) f.ctx c.gas >>= finish_call f c

  abbrev remains : List ℕ → Machine → Inner
  remains ret t = record { ret = ret; evm = t.evm; tracer = t.exec.tracer }

  run_inner_run :
      (run : Runner) (f : Frame) (c : Called) (s : Machine) (ret : List ℕ) (t : Machine)
      → run (decode c.code) (inner_call f c) f.ctx (inner_machine c.gas s) ≡ (ok ret, t)
      → run_inner run (decode c.code) (inner_call f c) f.ctx c.gas s
        ≡ (ok (remains ret t), record s { ext = t.ext })
  unfolding run_inner
  run_inner_run run f c s ret t e =
      ap (λ (r : Outcome (List ℕ) × Machine). (inner_result r.0 r.1, record s { ext = r.1.ext })) e

  call_contract_run :
      (run : Runner) (f : Frame) (c : Called) (s : Machine) (ret : List ℕ) (t : Machine)
      → (transferred f c s).0 ≡ ok tt
      → run (decode c.code) (inner_call f c) f.ctx (inner_machine c.gas (called f c s))
        ≡ (ok ret, t)
      → call_contract run f c s
        ≡ finish_call f c (remains ret t) (record (called f c s) { ext = t.ext })
  unfolding call_contract trace
  call_contract_run run f c s ret t moves e =
      run_ok
        (call_transfer f.ctx.call_type f.ctx.depth (this_address f) c.args.address c.args.value)
        (λ _. report_code f c >> run_called run f c) s (transferred f c s).1 tt
        (ap (λ (o : Outcome Done). (o, (transferred f c s).1)) moves)
      ∙ run_ok (run_inner run (decode c.code) (inner_call f c) f.ctx c.gas) (finish_call f c)
          (called f c s) (record (called f c s) { ext = t.ext }) (remains ret t)
          (run_inner_run run f c (called f c s) ret t e)

  -- A call whose frame reverts, when its touches are the journal of its accesses, answers 0 and
  -- leads back to a world state that looks like the one that the frame started in, which is the one
  -- behind the transfer of value: the balances stay as the transfer left them. The
  -- two accounts are cached, the sum of the receiver fits 256 bits, the call asks for no return
  -- data, and the stack has room for the answer.
  pub call_contract_keeps_transfer :
      (run : Runner) (f : Frame) (c : Called) (from to : Account) (s : Machine) (ret : List ℕ)
      (t : Machine)
      → s.ext.state (this_address f) ≡ some from
      → s.ext.state c.args.address ≡ some to
      → to.value + c.args.value < two256
      → c.args.ret_size ≡ 0
      → length s.evm.stack < stack_limit
      → run (decode c.code) (inner_call f c) f.ctx (inner_machine c.gas (called f c s))
        ≡ (ok ret, t)
      → t.evm.reverted ≡ true
      → Journal (called f c s).ext t.evm.touches t.ext
      → let after = call_contract run f c s in
        let part = moved f.ctx.call_type (this_address f) c.args.address c.args.value from.value in
        (after.0 ≡ ok tt)
        × (after.1.evm.stack ≡ 0 ∷ s.evm.stack)
        × (observed after.1.ext ≡ observed (called f c s).ext)
        × (value_of (this_address f) after.1.ext ≡ some (from.value - part))
        × (value_of c.args.address after.1.ext ≡ some (to.value + part))
  unfolding trace
  call_contract_keeps_transfer run f c from to s ret t ha hb fits none_back room e reverted j =
      let moves =
        call_transfer-IsTransfer f.ctx.call_type f.ctx.depth (this_address f) c.args.address
          c.args.value from to s ha hb fits in
      let undone =
        finish_call-IsUndone f c (remains ret t) (record (called f c s) { ext = t.ext }) none_back
          reverted (subst (λ (l : List Word). length l < stack_limit) (sym moves.same_stack) room)
          j in
      rw (call_contract_run run f c s ret t moves.succeeds e) (
        undone.succeeds,
        undone.answered ∙ ap (λ (l : List Word). 0 ∷ l) moves.same_stack,
        undone.restored,
        ap (value_of (this_address f)) undone.restored ∙ moves.debited,
        ap (value_of c.args.address) undone.restored ∙ moves.credited,
      )
