-- ===== src/Stm/Cluster/Calls.antt =====
-- `stm_get` and `stm_put` on any processor, with their handlers. A call returns once the reply has
-- been handled; `buf` is the address of the buffer that a handler works in.
use cluster_stm.Common.Words.{handlerarg}
use cluster_stm.Common.{◌&&◌, ℕ, ◌^◌, ◌==◌, ltb, if◌then◌else◌}
use cluster_stm.Stm.Types.{Run, ok, ◌>>=◌, Config, Status, succeed, fail, succeeded, read, abort}
use cluster_stm.Stm.Node.{Buffer, Libs, Node, read_bytes, write_bytes}
use cluster_stm.Stm.Open.{open_local}
use cluster_stm.Stm.Copy.{memcpy_wb, get_local, put_local}
use cluster_stm.Stm.Cluster.{Cluster, Ending, returned, set_node, touch}
use cluster_stm.Stm.Cluster.Remote.{stm_finish}

module _ {l : Libs} where
  -- The answer of `stm_get_handler`: its buffer and how many bytes of it are sent. `nbytes` is its
  -- argument as a `size_t`.
  unfoldable pub stm_get_handler :
      Config → ℕ → Node l → (src_proc src nbytes buf : ℕ) → Run (Node l × (Buffer × ℕ))
  stm_get_handler c fuel n src_proc src nbytes buf =
      open_local c fuel n src_proc src nbytes read >>= λ r.
      let sent = if succeeded r.1 then nbytes else 0 in
      if c.write_buffering
      then memcpy_wb fuel r.0 src_proc src buf sent read
        >>= (λ n'. ok (n', (read_bytes n'.mem buf, sent)))
      else ok (r.0, (read_bytes r.0.mem src, sent))

  -- The status of the answer, whose size is an argument with a sign: no bytes mean that the blocks
  -- could not be opened.
  unfoldable pub stm_get_reply_handler : Node l → Buffer → (nbytes dest : ℕ) → Node l × Status
  unfolding handlerarg
  stm_get_reply_handler n buf nbytes dest =
      let arg = handlerarg nbytes in
      if ltb 0 arg && ltb arg (2 ^ 31)
      then (record n { mem = write_bytes n.mem dest arg buf }, succeed)
      else (n, fail)

  -- `stm_put_handler`: the bytes of the request have arrived at `buf`.
  unfoldable pub stm_put_handler :
      Config → ℕ → Node l → (src_proc dest buf nbytes : ℕ) → Run (Node l × Status)
  stm_put_handler c fuel n src_proc dest buf nbytes = put_local c fuel n src_proc dest buf nbytes

module _ {l : Libs} (c : Config) (fuel : ℕ) (grt_id : ℕ) where
  -- `if (status == FAIL) stm_finish(tx_dor, ABORT)`
  abbrev pub or_abort : Cluster l → ℕ → Status → Cluster l × Ending
  or_abort cl src_proc status =
      if succeeded status then (cl, returned) else stm_finish c grt_id cl src_proc abort

  unfoldable pub stm_get :
      Cluster l → (src_proc dest mem_proc src nbytes buf : ℕ) → Run (Cluster l × Ending)
  unfolding stm_get_handler stm_get_reply_handler handlerarg
  stm_get cl src_proc dest mem_proc src nbytes buf =
      let touched = set_node cl grt_id (touch (cl.nodes grt_id) src_proc mem_proc) in
      if mem_proc == grt_id
      then get_local c fuel (cl.nodes grt_id) src_proc dest src nbytes
        >>= (λ r. ok (or_abort (set_node cl grt_id r.0) src_proc r.1))
      else stm_get_handler c fuel (touched.nodes mem_proc) src_proc src (handlerarg nbytes) buf
        >>= (λ r.
            let cl' = set_node touched mem_proc r.0 in
            let (n, status) = stm_get_reply_handler (cl'.nodes grt_id) r.1.0 r.1.1 dest in
            ok (or_abort (set_node cl' grt_id n) src_proc status))

  unfoldable pub stm_put :
      Cluster l → (src_proc mem_proc dest src nbytes buf : ℕ) → Run (Cluster l × Ending)
  unfolding stm_put_handler
  stm_put cl src_proc mem_proc dest src nbytes buf =
      let touched = set_node cl grt_id (touch (cl.nodes grt_id) src_proc mem_proc) in
      let remote = touched.nodes mem_proc in
      let payload = read_bytes (touched.nodes grt_id).mem src in
      let arrived = record remote { mem = write_bytes remote.mem buf nbytes payload } in
      if nbytes == 0
      then ok (cl, returned)
      else (if mem_proc == grt_id
          then put_local c fuel (cl.nodes grt_id) src_proc dest src nbytes
            >>= (λ r. ok (or_abort (set_node cl grt_id r.0) src_proc r.1))
          else stm_put_handler c fuel arrived src_proc dest buf nbytes
            >>= (λ r. ok (or_abort (set_node touched mem_proc r.0) src_proc r.1)))
