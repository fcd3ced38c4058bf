-- ===== src/Conn/Order.antt =====
-- The application gets the data of a stream in order, without gaps and repetitions.
pub mod Strms
pub mod InPlace
pub mod Push
pub mod Frames
pub mod Handler
pub mod Laws
use mathlib.Core.Path.{subst}
use ngtcp.Track.Range.{add_uint64}
use ngtcp.Base.{
  ◌==◌, if◌then◌else◌, Bool-cases, le_cases, length, ok, ℕ, zero, suc, ◌+◌, ◌-◌, ◌^◌, ◌≤◌, ◌<◌, ◌≡◌,
  refl, sym, ap, ◌∙◌, inl, inr, Bool, true, false, ◌&&◌, none, List, [], ◌∷◌, ◌++◌, append-nil,
  append_assoc, arith,
}
use ngtcp.Strm.State.{Strm}
use ngtcp.Strm.Rob.{Rob, rob_data_at, rob_pop, rob_first_gap_offset}
use ngtcp.Strm.Rob.Read.{
  segment, length-segment, segment-append, Holds, IsRead, here, read_step, first_gap_same,
  rob_data_at_end, first_gap_small,
}
use ngtcp.Conn.{
  Call, recv_stream_data, recv_stream0_data, stream_close, extend_max_stream_id, App, Conn,
  call_app,
}
use ngtcp.Conn.Recv.{Emitted, emit_round, emit_loop, deliver_data}

-- The data of a stream that the application got.
unfoldable pub delivered : ℕ → List Call → List ℕ
delivered id [] = []
delivered id (recv_stream_data i fin bytes ∷ calls) =
    let rest = delivered id calls in if i == id then bytes ++ rest else rest
delivered id (recv_stream0_data bytes ∷ calls) = delivered id calls
delivered id (stream_close i code ∷ calls) = delivered id calls
delivered id (extend_max_stream_id i ∷ calls) = delivered id calls

pub delivered-append :
    (id : ℕ) (xs ys : List Call) → delivered id (xs ++ ys) ≡ delivered id xs ++ delivered id ys
unfolding delivered
delivered-append id [] ys = refl
delivered-append id (recv_stream_data i fin bytes ∷ xs) ys = elim (Bool-cases (i == id)) [
  | inl e ↦ rw (e, delivered-append id xs ys, append_assoc) refl
  | inr e ↦ rw e (delivered-append id xs ys)
]
delivered-append id (recv_stream0_data bytes ∷ xs) ys = delivered-append id xs ys
delivered-append id (stream_close i code ∷ xs) ys = delivered-append id xs ys
delivered-append id (extend_max_stream_id i ∷ xs) ys = delivered-append id xs ys

pub delivered_one :
    (id : ℕ) (fin : Bool) (bytes : List ℕ)
    → delivered id (recv_stream_data id fin bytes ∷ []) ≡ bytes
unfolding delivered
delivered_one id fin bytes = let e : (id == id) ≡ true = ground arith in rw (e, append-nil) refl

module _ (f : ℕ → ℕ) (app : App) (willing : (call : Call) → app call ≡ none) (strm : Strm) where
  -- The application gets `bytes` of the stream, and nothing else happens to the connection.
  abbrev pub Gets : List ℕ → Conn → Conn → Type 0
  Gets bytes conn conn' =
      (calls : List Call) × (conn' ≡ record conn { calls = calls })
      × (delivered strm.stream_id calls ≡ delivered strm.stream_id conn.calls ++ bytes)

  pub deliver_data-Gets :
      (end : ℕ) (bytes : List ℕ) (conn : Conn)
      → (conn' : Conn) × (deliver_data app strm end bytes conn ≡ (conn', ok tt))
        × Gets bytes conn conn'
  unfolding deliver_data call_app
  deliver_data-Gets end bytes conn =
      let call =
        recv_stream_data strm.stream_id (strm.flags.shut_rd && (end == strm.last_rx_offset))
          bytes in
      (
        record conn { calls = conn.calls ++ (call ∷ []) },
        rw (willing call) refl,
        (
          conn.calls ++ (call ∷ []),
          refl,
          delivered-append strm.stream_id conn.calls (call ∷ [])
              ∙ ap (λ t. delivered strm.stream_id conn.calls ++ t)
                  (delivered_one strm.stream_id (strm.flags.shut_rd && (end == strm.last_rx_offset))
                    bytes),
        ),
      )

  Gets-nil : (conn : Conn) → Gets [] conn conn
  Gets-nil conn = (conn.calls, refl, sym (append-nil (delivered strm.stream_id conn.calls)))

  Gets-append :
      (first second : List ℕ) (conn conn' conn'' : Conn)
      → Gets first conn conn'
      → Gets second conn' conn''
      → Gets (first ++ second) conn conn''
  Gets-append first second conn conn' conn'' (c, e, d) (c', e', d') =
      let calls : conn'.calls ≡ c = ap (λ (x : Conn). x.calls) e in
      (
        c',
        e' ∙ ap (λ (x : Conn). record x { calls = c' }) e,
        d'
            ∙ ap (λ t. delivered strm.stream_id t ++ second) calls
            ∙ ap (λ t. t ++ second) d
            ∙ append_assoc (delivered strm.stream_id conn.calls) first second,
      )

  -- A round of the loop that hands out `n` bytes.
  emit_round_lem :
      (offset n : ℕ) (rob rob' : Rob) (conn conn' : Conn) (next : ℕ → Rob → Conn → Emitted)
      → 0 < n
      → offset + n < 2 ^ 64
      → rob_data_at rob offset ≡ ok (segment f offset n)
      → rob_pop rob offset n ≡ ok rob'
      → deliver_data app strm (offset + n) (segment f offset n) conn ≡ (conn', ok tt)
      → emit_round (deliver_data app strm) offset rob next conn (rob_data_at rob offset)
        ≡ next (offset + n) rob' conn'
  emit_round_lem offset n rob rob' conn conn' next pos small read pop get =
      let len = length-segment f offset n in
      let some_bytes : (n == 0) ≡ false = ground arith in
      let end : add_uint64 offset n ≡ offset + n = omega arith in
      rw (read, len, some_bytes, end, pop, get) refl

  -- The loop hands out all that is in order behind `offset`.
  pub emit_loop_lem :
      (fuel offset : ℕ) (rob : Rob) (conn : Conn)
      → IsRead f offset rob
      → offset ≤ rob_first_gap_offset rob
      → (offset < rob_first_gap_offset rob → length rob.chunks + 1 < fuel)
      → 0 < fuel
      → (rob' : Rob) × (conn' : Conn) × (emit_loop (deliver_data app strm) fuel offset rob conn
          ≡ (rob', conn', ok tt))
        × (rob'.gap ≡ rob.gap)
        × Holds f (rob_first_gap_offset rob) rob'
        × Gets (segment f offset (rob_first_gap_offset rob - offset)) conn conn'
  unfolding emit_loop
  emit_loop_lem zero offset rob conn h le lt pos = absurd (omega arith)
  emit_loop_lem (suc fuel) offset rob conn h le lt pos =
      elim (le_cases (rob_first_gap_offset rob) offset) [
        | inl done ↦
            let here : offset ≡ rob_first_gap_offset rob = omega arith in
            let at_end : (offset == rob_first_gap_offset rob) ≡ true = ground arith in
            let nothing : rob_first_gap_offset rob - offset ≡ 0 = omega arith in
            (
              rob,
              conn,
              rw (rob_data_at_end f offset rob h done, at_end) refl,
              refl,
              subst (λ o. Holds f o rob) here h.holds,
              rw nothing (Gets-nil conn),
            )
        | inr more ↦
            let (n, rob1, r) = read_step f offset rob h more in
            let (conn1, got, gets) = deliver_data-Gets (offset + n) (segment f offset n) conn in
            let gap : rob_first_gap_offset rob1 ≡ rob_first_gap_offset rob =
              first_gap_same rob1 rob r.4 in
            let small = first_gap_small f offset rob h.holds in
            let chunks : offset + n < rob_first_gap_offset rob1 → length rob1.chunks + 1 < fuel =
              λ less. elim r.6 [
                | inl shorter ↦ omega (arith, lt more)
                | inr full ↦ absurd (omega arith)
              ] in
            let (rob', conn', loop, same, holds, rest) =
              emit_loop_lem fuel (offset + n) rob1 conn1 r.5 (omega (arith, r.1)) chunks
                (omega (arith, lt more)) in
            let size : n + (rob_first_gap_offset rob - (offset + n))
                ≡ rob_first_gap_offset rob - offset =
              omega (arith, r.1) in
            (
              rob',
              conn',
              emit_round_lem offset n rob rob1 conn conn1 (emit_loop (deliver_data app strm) fuel)
                    r.0 (omega (arith, r.1)) r.2 r.3 got
                  ∙ loop,
              same ∙ r.4,
              subst (λ o. Holds f o rob') gap holds,
              rw (← size, segment-append)
                  (Gets-append (segment f offset n)
                    (segment f (offset + n) (rob_first_gap_offset rob - (offset + n))) conn conn1
                    conn' gets
                    (subst (λ o. Gets (segment f (offset + n) (o - (offset + n))) conn1 conn') gap
                      rest)),
            )
      ]
