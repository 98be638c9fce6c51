-- ===== src/Daemon/SocketSession/Served.antt =====
-- How a connection serves one request, from its bytes to the reply's bytes.
use logsvc.Common.{
  refl, ap, sym, ◌∙◌, All, ◌↔◌, ℕ, ◌≡◌, Bool, true, inl, inr, none, some, ◌∷◌, ◌++◌, length,
  if◌then◌else◌, arith, Bool-cases,
}
use logsvc.Common.Text.{Bytes, IsByte}
use logsvc.Daemon.SocketSession.{
  listen_for_new_header, SocketSession, async_read, async_write, bytes_received, write_succeeded,
  start_listen, receive,
}
use logsvc.Errors.{Result, ok, throw, fault}
use logsvc.Exec.{Exec, ◌>>◌}
use logsvc.Log.Answers.{is_reply, act_lem}
use logsvc.Log.Factory.{create}
use logsvc.Log.Factory.Known.{Announces, create_iff}
use logsvc.Log.Interfaces.{Deliverable, Executor}
use logsvc.Log.Receivable.{Receivable, get_payload_length, is_final_message, read_payload, act}
use logsvc.Log.Wire.{Arrives}
use logsvc.Platform.{Platform}

-- The completions on the socket while one request is served: its header is received, its payload, and
-- the reply has been written.
unfoldable pub exchange :
    {S : Type 0} → Platform → Executor S → Bytes → Bytes → Exec (SocketSession S) (Unit {0})
exchange P exec header payload = do
  bytes_received P exec header
  bytes_received P exec payload
  write_succeeded

module _ {S : Type 0} (P : Platform) (exec : Executor S) (st : SocketSession S) where
  -- The connection after a header has announced `current`.
  abbrev pub awaiting : Receivable → SocketSession S
  awaiting current = record st {
    current_receivable = some current;
    calls = async_read (get_payload_length current) ∷ st.calls;
  }

  -- The connection after a request of `n` bytes has been answered. It listens for a header again,
  -- unless that was the last request.
  abbrev pub served : ℕ → Bool → Bytes → S → SocketSession S
  served n final answer s = record st {
    current_receivable = none;
    executor = s;
    calls =
        if final
        then async_write answer ∷ async_read n ∷ st.calls
        else async_read 12 ∷ async_write answer ∷ async_read n ∷ st.calls;
  }

  module _ (connected : st.has_socket ≡ true) where
    header_lem :
        (header : Bytes) (current : Receivable)
        → st.current_receivable ≡ none
        → create P header ≡ ok current
        → bytes_received P exec header st ≡ (ok tt, awaiting current)
    unfolding bytes_received
    header_lem header current idle e = rw (idle, receive, e, connected)

    payload_lem :
        (payload : Bytes) (current r : Receivable) (d : Deliverable) (s : S) (h p : Bytes)
        → read_payload payload current ≡ ok r
        → act P exec r st.executor ≡ (ok (some d), s)
        → d.get_header ≡ ok h
        → d.get_payload ≡ ok p
        → bytes_received P exec payload (awaiting current) ≡ (
          ok tt,
          record st {
            current_receivable = some r;
            executor = s;
            calls = async_write (h ++ p) ∷ async_read (get_payload_length current) ∷ st.calls;
          },
        )
    unfolding bytes_received
    payload_lem payload current r d s h p e acts eh ep = rw (e, acts, connected, eh, ep)

    written_lem :
        (r : Receivable) (n : ℕ) (answer : Bytes) (s : S)
        → write_succeeded (record st {
          current_receivable = some r;
          executor = s;
          calls = async_write answer ∷ async_read n ∷ st.calls;
        })
          ≡ (ok tt, served n (is_final_message r) answer s)
    unfolding write_succeeded listen_for_new_header start_listen
    written_lem r n answer s = elim (Bool-cases (is_final_message r)) [
      | inl final ↦ rw final
      | inr more ↦ rw (more, connected)
    ]

    -- On an idle connection, with a request of any class that arrives by its header and its payload:
    -- if acting on it gives an answer whose header and payload can be formed, then the connection
    -- reads exactly the payload, writes exactly one answer, and is idle again, listening for the next
    -- header unless the request was final.
    pub exchange_lem :
        (r : Receivable) (header payload : Bytes) (d : Deliverable) (s : S) (h p : Bytes)
        → st.current_receivable ≡ none
        → Arrives P r header payload
        → act P exec r st.executor ≡ (ok (some d), s)
        → d.get_header ≡ ok h
        → d.get_payload ≡ ok p
        → exchange P exec header payload st
          ≡ (ok tt, served (length payload) (is_final_message r) (h ++ p) s)
    unfolding exchange
    exchange_lem r header payload d s h p idle a acts eh ep =
        rw (header_lem header a.waiting idle a.announced) (
          rw (payload_lem payload a.waiting r d s h p a.received acts eh ep)
            (rw (written_lem r (get_payload_length a.waiting) (h ++ p) s) (rw a.payload_size)))

    unanswered_lem :
        (payload : Bytes) (current r : Receivable)
        → read_payload payload current ≡ ok r
        → act P exec r st.executor ≡ (ok none, st.executor)
        → bytes_received P exec payload (awaiting current) ≡ (
          fault,
          record st {
            current_receivable = some r;
            calls = async_read (get_payload_length current) ∷ st.calls;
          },
        )
    unfolding bytes_received
    unanswered_lem payload current r e acts = rw (e, acts, connected)

    -- On an idle connection, an object of a class that only the daemon sends, when it arrives by its
    -- header and its payload, ends the process: it has no answer, and the null pointer is followed.
    pub reply_faults :
        (r : Receivable) (header payload : Bytes)
        → st.current_receivable ≡ none
        → Arrives P r header payload
        → is_reply r ≡ true
        → (exchange P exec header payload st).0 ≡ fault
    unfolding exchange
    reply_faults r header payload idle a is = elim (act_lem P exec st.executor r) [
      | inl (is', acts) ↦
          rw (header_lem header a.waiting idle a.announced)
            (rw (unanswered_lem payload a.waiting r a.received acts))
      | inr (is_not, rest) ↦ ground (arith, is, is_not)
    ]

    refused_lem :
        (header : Bytes) (x : Result Receivable)
        → st.current_receivable ≡ none
        → create P header ≡ x
        → (bytes_received P exec header st).0 ≡ ok tt
        → (r : Receivable) × (x ≡ ok r)
    unfolding bytes_received
    refused_lem header (ok r) idle q e = (r, refl)
    refused_lem header (throw x) idle q e =
        let thrown : (bytes_received P exec header st).0 ≡ throw x = rw (idle, receive, q) in
        let bad : throw x ≡ ok tt = sym thrown ∙ e in absurd (cc)
    refused_lem header fault idle q e =
        let ended : (bytes_received P exec header st).0 ≡ fault = rw (idle, receive, q) in
        let bad : fault ≡ ok tt = sym ended ∙ e in absurd (cc)

    -- On an idle connection, the handler that receives a header returns exactly if the header is one that
    -- protocol.txt describes. Any other header makes it throw, or ends the process.
    pub header_iff :
        (header : Bytes)
        → st.current_receivable ≡ none
        → All IsByte header
        → ((bytes_received P exec header st).0 ≡ ok tt) ↔ ((r : Receivable) × Announces header r)
    header_iff header idle bytes = (
      λ e.
          let (r, made) = refused_lem header (create P header) idle refl e in
          (r, (create_iff P header r bytes).0 made),
      λ known.
          ap (λ (t : Result (Unit {0}) × SocketSession S). t.0)
            (header_lem header known.0 idle ((create_iff P header known.0 bytes).1 known.1)),
    )
