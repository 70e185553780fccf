-- ===== src/Delta/Record/Calls.antt =====
-- How often delta_dump_node() and delta_dump_replace() of src/delta.c call each other.
use rsvndump.Base.{ℕ, suc, ◌≡◌, refl, ◌∙◌, Status, success, failure, arith}
use rsvndump.Apr.{AprHash, AprStrings}
use rsvndump.Critbit.{Critbit}
use rsvndump.Snappy.{Snappy}
use rsvndump.Svn.{DumpNames, SvnCalls}
use rsvndump.Files.{Files}
use rsvndump.Session.{Obfuscation}
use rsvndump.Delta.Node.{Node, Editor, print}
use rsvndump.Delta.Copies.{delta_check_copy, check_source, resolve_copy, delta_check_action}
use rsvndump.Delta.Print.{delete_record}
use rsvndump.Delta.Record.{dump_calls, dump_call, dump_checked, replaced, delta_dump_node}

module _ ⦃apr : AprHash⦄ ⦃cb : Critbit⦄ ⦃obf : Obfuscation⦄ ⦃files : Files⦄ where
  action-check_source :
      (ed : Editor) (n : Node) → (check_source ed n n.copyfrom_path).action ≡ n.action
  unfolding check_source resolve_copy
  action-check_source ed n = ground arith

  pub action-delta_check_copy : (ed : Editor) (n : Node) → (delta_check_copy ed n).action ≡ n.action
  unfolding delta_check_copy
  action-delta_check_copy ed n = ground (arith, action-check_source ed n)

module _ ⦃names : DumpNames⦄ ⦃apr : AprHash⦄ ⦃strings : AprStrings⦄ ⦃cb : Critbit⦄ ⦃sn : Snappy⦄
    ⦃obf : Obfuscation⦄ ⦃files : Files⦄ ⦃svn : SvnCalls⦄ where
  -- An action that is neither 'R' nor 'M' stays.
  delta_check_action_other :
      (ed : Editor) (n : Node) → n.action ≡ b'A' → delta_check_action ed n ≡ (success, n, ed)
  unfolding delta_check_action
  delta_check_action_other ed n h = rw h refl

  -- A call for a replacement makes no further call.
  dump_call-replaced :
      (f g : Editor → Node → Status × Node × Editor) (a : ℕ) (ed : Editor) (n : Node)
      → dump_call f a ed (replaced n) ≡ dump_call g a ed (replaced n)
  unfolding dump_call
  dump_call-replaced f g a ed n =
      let same : (delta_check_copy ed (replaced n)).action ≡ b'A' =
        action-delta_check_copy ed (replaced n) ∙ unfold replaced in refl in
      rw (delta_check_action_other ed (delta_check_copy ed (replaced n)) same)
        (unfold dump_checked in rw same refl)

  dump_checked-ext :
      (f g : Editor → Node → Status × Node × Editor) (a : ℕ) (s : Status) (n : Node) (ed : Editor)
      → ((e : Editor) (m : Node) → f e (replaced m) ≡ g e (replaced m))
      → dump_checked f a s n ed ≡ dump_checked g a s n ed
  unfolding dump_checked
  dump_checked-ext f g a failure n ed h = refl
  dump_checked-ext f g a success n ed h = rw (h (print ed (delete_record ed.opts n)) n) refl

  -- A node is dumped by two calls of delta_dump_node() at most, the second of them for a
  -- replacement: to allow more calls changes nothing, whatever the state of the editor.
  pub dump_calls-delta_dump_node :
      (k a : ℕ) (ed : Editor) (n : Node) → dump_calls (suc (suc k)) a ed n ≡ delta_dump_node a ed n
  unfolding delta_dump_node dump_calls
  dump_calls-delta_dump_node k a ed n =
      let (s, n', ed') = delta_check_action ed (delta_check_copy ed n) in
      unfold dump_call in
      rw
        (dump_checked-ext (dump_calls (suc k) a) (dump_calls 1 a) a s n' ed'
          (λ e m. unfold dump_calls in dump_call-replaced (dump_calls k a) (dump_calls 0 a) a e m))
        refl
