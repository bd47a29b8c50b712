-- ===== src/Server/Core/Closes.antt =====
-- `core_handler` of spoe_forge/server/handler.py from the start of a connection to its end.
use spoe_forge.Prelude.{
  ℕ, ◌^◌, ◌≤◌, ◌<◌, ◌≡◌, ◌⊎◌, inl, inr, refl, ap, sym, ◌∙◌, Bool, true, false, List, [], ◌∷◌, ◌++◌,
  append_assoc, append-nil, if◌then◌else◌,
}
use spoe_forge.Prelude.Int.{pos}
use spoe_forge.Prelude.Buffer.{Bytes}
use spoe_forge.Prelude.Text.{Text}
use spoe_forge.Spop.Result.{Result, ok, err, connection_error}
use spoe_forge.Spop.Types.{Value, IsLatin1, Messages, Action}
use spoe_forge.Server.Connection.{Connection}
use spoe_forge.Server.Handler.{DisconnectCode, send_disconnect_on_error}
use spoe_forge.Server.Handler.Disconnects.{wrote, Parts, disconnect-Parts}
use spoe_forge.Server.Core.{
  Failure, failed, Clause, too_big, protocol, takes, raised_in, except, left_over, finish, settle,
  close_connection, Ends,
}
use spoe_forge.Server.Core.Open.{Ends-state}

-- A clause writes something and raises nothing, or the connection breaks under it.
abbrev Clears : Connection → List Failure × Connection → Type 0
Clears c r =
    (out : Bytes) × (r.1 ≡ wrote out c)
    × ((r.0 ≡ [])
        ⊎ ((r.0 ≡ failed connection_error ∷ []) × (c.writer.broken (c.writer.sent ++ out) ≡ true)))

raised-Clears : (c : Connection) (r : Result Bool × Connection) → Parts c r → Clears c (raised_in r)
raised-Clears c (ok sent, d) (out, p, how) = (out, p, inl refl)
raised-Clears c (err e, d) (out, p, inl (sent, q)) = cc
raised-Clears c (err e, d) (out, p, inr (q, down)) =
    let same : e ≡ connection_error = cc in (out, p, inr (ap (λ x. failed x ∷ []) same, down))

except-Clears :
    (max : ℕ) (k : Clause) (code : DisconnectCode) (message : Text) (fs : List Failure)
    (c : Connection)
    → c.config.max_frame_size ≡ Value.int (pos max)
    → 288 ≤ max
    → max < 2 ^ 32
    → IsLatin1 message
    → Clears c (except k code message fs c)
except-Clears max k code message fs c size low high h = by_part (takes k fs)
  where
    by_part :
        (b : Bool)
        → Clears c (
            if◌then◌else◌ {A = List Failure × Connection} b
              (raised_in (send_disconnect_on_error code message c))
              ([], c))
    by_part true =
        raised-Clears c (send_disconnect_on_error code message c)
          (disconnect-Parts code message max c size low high h)
    by_part false = (
      [],
      ap (λ s. record c { writer = record c.writer { sent = s } }) (sym (append-nil c.writer.sent)),
      inl refl,
    )

-- What `core_handler` leaves behind: the connection closed, if each exception of the group is one that a
-- clause catches, and else the others raised; or a `ConnectionError` raised, from a connection that broke.
abbrev pub Leaves : Connection → List Failure → List Failure × Connection → Type 0
Leaves c fs r =
    ((out : Bytes) × (left_over fs ≡ [] → r ≡ ([], close_connection (wrote out c)))
      × ((f : Failure) (rest : List Failure)
          → left_over fs ≡ f ∷ rest
          → r ≡ (f ∷ rest, wrote out c)))
    ⊎ ((out : Bytes) × (c.writer.broken (c.writer.sent ++ out) ≡ true)
        × (front : List Failure) × (back : List Failure) × (r.0
            ≡ front ++ (failed connection_error ∷ back))
        × (r.1.writer.closing ≡ c.writer.closing))

finish-raised :
    (front back : List Failure) (c : Connection)
    → finish (front ++ (failed connection_error ∷ back)) c
      ≡ (front ++ (failed connection_error ∷ back), c)
finish-raised [] back c = refl
finish-raised (f ∷ front) back c = refl

broke-Leaves :
    (c d : Connection) (out : Bytes) (front back fs : List Failure) (r : List Failure × Connection)
    → r ≡ finish (front ++ (failed connection_error ∷ back)) d
    → c.writer.broken (c.writer.sent ++ out) ≡ true
    → d.writer.closing ≡ c.writer.closing
    → Leaves c fs r
broke-Leaves c d out front back fs r e down same =
    let done = e ∙ finish-raised front back d in
    inr (out, down, front, back, ap (λ p. p.0) done, ap (λ p. p.1.writer.closing) done ∙ same)

wrote-wrote : (a b : Bytes) (c : Connection) → wrote b (wrote a c) ≡ wrote (a ++ b) c
wrote-wrote a b c =
    ap (λ s. record c { writer = record c.writer { sent = s } }) (append_assoc c.writer.sent a b)

-- The two clauses that write, one after the other.
both-Leaves :
    (c : Connection) (fs : List Failure) (p q : List Failure × Connection)
    → Clears c p
    → Clears p.1 q
    → Leaves c fs (finish (p.0 ++ (q.0 ++ left_over fs)) q.1)
both-Leaves c fs (r, d) (s, e) (out, w, inr (raised, down)) (out', w', how) =
    broke-Leaves c e out [] (s ++ left_over fs) fs _
      (ap (λ l. finish (l ++ (s ++ left_over fs)) e) raised) down
      (ap (λ x. x.writer.closing) w' ∙ ap (λ x. x.writer.closing) w)
both-Leaves c fs (r, d) (s, e) (out, w, inl none) (out', w', inr (raised, down)) =
    broke-Leaves c e (out ++ out') [] (left_over fs) fs _
      (ap (λ l. finish (l ++ (s ++ left_over fs)) e) none
        ∙ ap (λ l. finish (l ++ left_over fs) e) raised)
      (ap (λ x. c.writer.broken x) (sym (append_assoc c.writer.sent out out'))
        ∙ ap (λ (x : Connection). x.writer.broken (x.writer.sent ++ out')) (sym w)
        ∙ down)
      (ap (λ x. x.writer.closing) w' ∙ ap (λ x. x.writer.closing) w)
both-Leaves c fs (r, d) (s, e) (out, w, inl none) (out', w', inl none') =
    let same = w' ∙ ap (wrote out') w ∙ wrote-wrote out out' c in
    let done : finish (r ++ (s ++ left_over fs)) e ≡ finish (left_over fs) (wrote (out ++ out') c) =
      ap (λ l. finish (l ++ (s ++ left_over fs)) e) none
      ∙ ap (λ l. finish (l ++ left_over fs) e) none'
      ∙ ap (finish (left_over fs)) same in
    inl (
      out ++ out',
      λ l. done ∙ ap (λ x. finish x (wrote (out ++ out') c)) l,
      λ f rest l. done ∙ ap (λ x. finish x (wrote (out ++ out') c)) l,
    )

settle-Leaves :
    (max : ℕ) (t u : Text) (fs : List Failure) (c : Connection)
    → c.config.max_frame_size ≡ Value.int (pos max)
    → 288 ≤ max
    → max < 2 ^ 32
    → IsLatin1 t
    → IsLatin1 u
    → Leaves c fs (settle t u fs c)
unfolding settle
settle-Leaves max t u fs c size low high h k =
    let p = except too_big DisconnectCode.frame_too_big t fs c in
    let first = except-Clears max too_big DisconnectCode.frame_too_big t fs c size low high h in
    both-Leaves c fs p (except protocol DisconnectCode.protocol_error u fs p.1) first (
      except-Clears max protocol DisconnectCode.protocol_error u fs p.1
        (ap (λ x. x.config.max_frame_size) first.1 ∙ size) low high k)

-- However the task group of a connection ends, on any bytes, in any schedule and whenever the connection
-- goes down, where 288 bytes or more, below 4 GiB, are the frame size at the end, and for latin-1 texts:
-- if each exception of the group is one that a clause catches, `core_handler` closes the connection and
-- raises nothing, and else it raises the others and does not close it; but if `drain` fails for a
-- disconnect frame that a clause sends, at bytes after which the connection is broken, it raises that
-- `ConnectionError`, and a connection that was not closed before stays so.
pub core_handler_closes :
    (notify_handler : Messages → Result (List Action)) (c d : Connection) (fs : List Failure)
    (max : ℕ) (too_big_text protocol_text : Text)
    → Ends notify_handler c fs d
    → c.writer.closing ≡ false
    → d.config.max_frame_size ≡ Value.int (pos max)
    → 288 ≤ max
    → max < 2 ^ 32
    → IsLatin1 too_big_text
    → IsLatin1 protocol_text
    → let r = settle too_big_text protocol_text fs d in
      ((out : Bytes) × (left_over fs ≡ [] → r ≡ ([], close_connection (wrote out d)))
        × ((f : Failure) (rest : List Failure)
            → left_over fs ≡ f ∷ rest
            → r ≡ (f ∷ rest, wrote out d)))
      ⊎ ((sent : Bytes) × (c.writer.broken sent ≡ true)
          × (front : List Failure) × (back : List Failure) × (r.0
              ≡ front ++ (failed connection_error ∷ back))
          × (r.1.writer.closing ≡ false))
core_handler_closes notify_handler c d fs max t u ended shut size low high h k =
    let same = Ends-state notify_handler c d fs ended in
    elim (settle-Leaves max t u fs d size low high h k) [
      | inl done ↦ inl done
      | inr (out, down, front, back, e, left) ↦ inr (
        d.writer.sent ++ out,
        ap (λ s. s.2 (d.writer.sent ++ out)) (sym same) ∙ down,
        front,
        back,
        e,
        left ∙ ap (λ s. s.0) same ∙ shut,
      )
    ]
