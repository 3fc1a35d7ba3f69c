-- ===== src/Runtime/Processor/Decoding.antt =====
-- What `ProcessReceivedSignal` returns.
use ns3_bellhop_platform.Prelude.{◌≡◌, refl, sym, ap, subst, ◌∙◌, inl, inr, true, not, arith}
use ns3_bellhop_platform.Prelude.Int.{eqb_ℤ_iff}
use ns3_bellhop_platform.Contracts.Errors.{
  ok, ok-injective, >>=-eq-ok, reject_if-eq-ok, Result-cases,
}
use ns3_bellhop_platform.Contracts.Time.{time_lt}
use ns3_bellhop_platform.Contracts.Doubles.{Double}
use ns3_bellhop_platform.Contracts.State.{ReceptionId, NodeCommittedState, Position3d}
use ns3_bellhop_platform.Contracts.ReceivedSignal.{
  ReceivedSignal, transmission_id_of, receiver_of, first_arrival_at, last_effect_end_at,
}
use ns3_bellhop_platform.Contracts.ReceiverWindow.{ReceiverWindow}
use ns3_bellhop_platform.Contracts.Noise.{
  NoiseQuery, NoiseObservation, create_query, validate_noise_observation_identity,
}
use ns3_bellhop_platform.Contracts.RxPhy.{
  RxDecodeRequest, RxDecodeResult, create_noise_query_for_desired_signal, create_request,
  validate_rx_decode_result_identity,
}
use ns3_bellhop_platform.Runtime.Allocator.{CommunicationIdAllocator, next_reception_id}
use ns3_bellhop_platform.Runtime.Ledger.{InFlightSignalLedger, contains}
use ns3_bellhop_platform.Runtime.WindowBuilder.{build, not_in_ledger}
use ns3_bellhop_platform.Runtime.WorkingState.{CycleWorkingState, project_node_state}
use ns3_bellhop_platform.Runtime.Processor.{
  ReceptionSession, INoiseFieldProvider, IRxPhy, Decoded, decode, process_received_signal,
}

module _ {W : Type 0} ⦃d : Double W⦄ where
  create_query-same : (q r : NoiseQuery W) → create_query q ≡ ok r → q ≡ r
  unfolding create_query
  create_query-same q r h = ground arith

  create_noise_query-ok :
      (w : ReceiverWindow W) (p : Position3d W) (q : NoiseQuery W)
      → create_noise_query_for_desired_signal w p ≡ ok q
      → (q.receiver_node_id ≡ w.receiver_node_id)
        × (q.receiver_position ≡ p)
        × (q.observed_from ≡ first_arrival_at w.desired_signal)
        × (q.observed_until ≡ last_effect_end_at w.desired_signal)
  unfolding create_noise_query_for_desired_signal
  create_noise_query-ok w p q h =
      let same = sym (create_query-same _ q h) in
      (
        ap (λ x. x.receiver_node_id) same,
        ap (λ x. x.receiver_position) same,
        ap (λ x. x.observed_from) same,
        ap (λ x. x.observed_until) same,
      )

  create_request-ok :
      (w : ReceiverWindow W) (o : NoiseObservation W) (r : RxDecodeRequest W)
      → create_request w o ≡ ok r
      → (r ≡ record { receiver_window = w; noise_observation = o })
        × (time_lt (first_arrival_at w.desired_signal) (last_effect_end_at w.desired_signal) ≡ true)
        × (o.receiver_node_id ≡ w.receiver_node_id)
        × (o.observed_from ≡ first_arrival_at w.desired_signal)
        × (o.observed_until ≡ last_effect_end_at w.desired_signal)
  unfolding create_request
  create_request-ok w o r h = ground (
    arith,
    eqb_ℤ_iff o.observed_from.nanoseconds (first_arrival_at w.desired_signal).nanoseconds,
    eqb_ℤ_iff o.observed_until.nanoseconds (last_effect_end_at w.desired_signal).nanoseconds,
  )

  result_identity-ok :
      (r : RxDecodeRequest W) (x : RxDecodeResult)
      → validate_rx_decode_result_identity r x ≡ ok tt
      → (x.transmission_id ≡ transmission_id_of r.receiver_window.desired_signal)
        × (x.packet_id ≡ r.receiver_window.desired_signal.emission.packet_id)
        × (x.receiver_node_id ≡ r.receiver_window.receiver_node_id)
  unfolding validate_rx_decode_result_identity
  result_identity-ok r x h = ground arith

  -- What a decoding found for a signal.
  pub record IsDecoded (noise : INoiseFieldProvider W) (rx_phy : IRxPhy W)
      (desired : ReceivedSignal W) (ledger : InFlightSignalLedger W)
      (working_state : CycleWorkingState W) (window : ReceiverWindow W)
      (observation : NoiseObservation W) (result : RxDecodeResult) : Type 0 where
    pub in_ledger : contains ledger desired ≡ true
    pub window_is : build desired ledger ≡ ok window
    pub state : NodeCommittedState W
    pub projected :
        project_node_state working_state (receiver_of desired) (first_arrival_at desired) ≡ ok state
    pub query : NoiseQuery W
    pub queried : noise query ≡ ok observation
    pub query_receiver : query.receiver_node_id ≡ window.receiver_node_id
    pub query_position : query.receiver_position ≡ state.motion.position
    pub positive_width :
        time_lt (first_arrival_at window.desired_signal) (last_effect_end_at window.desired_signal)
        ≡ true
    pub observed_at : observation.receiver_node_id ≡ window.receiver_node_id
    pub observed_from : observation.observed_from ≡ first_arrival_at window.desired_signal
    pub observed_until : observation.observed_until ≡ last_effect_end_at window.desired_signal
    pub decoded_by :
        rx_phy (record { receiver_window = window; noise_observation = observation }) ≡ ok result
    pub result_transmission : result.transmission_id ≡ transmission_id_of window.desired_signal
    pub result_packet : result.packet_id ≡ window.desired_signal.emission.packet_id
    pub result_receiver : result.receiver_node_id ≡ window.receiver_node_id

  module _ (noise : INoiseFieldProvider W) (rx_phy : IRxPhy W) where
    decode-IsDecoded :
        (desired : ReceivedSignal W) (ledger : InFlightSignalLedger W)
        (working_state : CycleWorkingState W) (x : Decoded W)
        → decode noise rx_phy desired ledger working_state ≡ ok x
        → IsDecoded noise rx_phy desired ledger working_state x.receiver_window x.noise_observation
            x.decode_result
    unfolding decode
    decode-IsDecoded desired ledger working_state x h =
        let (inside, h₁) = reject_if-eq-ok (not (contains ledger desired)) not_in_ledger h in
        let (window, e₁, h₂) = >>=-eq-ok (build desired ledger) _ h₁ in
        let (state, e₂, h₃) =
          >>=-eq-ok
            (project_node_state working_state (receiver_of desired) (first_arrival_at desired)) _
            h₂ in
        let (query, e₃, h₄) =
          >>=-eq-ok (create_noise_query_for_desired_signal window state.motion.position) _ h₃ in
        let (observation, e₄, h₅) = >>=-eq-ok (noise query) _ h₄ in
        let (_, _, h₆) = >>=-eq-ok (validate_noise_observation_identity query observation) _ h₅ in
        let (request, e₅, h₇) = >>=-eq-ok (create_request window observation) _ h₆ in
        let (result, e₆, h₈) = >>=-eq-ok (rx_phy request) _ h₇ in
        let (_, e₇, h₉) = >>=-eq-ok (validate_rx_decode_result_identity request result) _ h₈ in
        let (at_node, at_position, _, _) =
          create_noise_query-ok window state.motion.position query e₃ in
        let (made, wide, where_, from, until) = create_request-ok window observation request e₅ in
        let (transmission, packet, receiver) = result_identity-ok request result e₇ in
        subst
          (λ y.
            IsDecoded noise rx_phy desired ledger working_state y.receiver_window
              y.noise_observation y.decode_result)
          (ok-injective h₉)
          (record {
            in_ledger = ground arith;
            window_is = e₁;
            state = state;
            projected = e₂;
            query = query;
            queried = e₄;
            query_receiver = at_node;
            query_position = at_position;
            positive_width = wide;
            observed_at = where_;
            observed_from = from;
            observed_until = until;
            decoded_by = ap rx_phy (sym made) ∙ e₆;
            result_transmission =
                transmission ∙ ap (λ r. transmission_id_of r.receiver_window.desired_signal) made;
            result_packet =
                packet ∙ ap (λ r. r.receiver_window.desired_signal.emission.packet_id) made;
            result_receiver = receiver ∙ ap (λ r. r.receiver_window.receiver_node_id) made;
          })

  -- The reception that a session reports, for the allocator before it.
  pub record IsReceptionOf (ids : CommunicationIdAllocator) (desired : ReceivedSignal W)
      (s : ReceptionSession W) : Type 0 where
    pub allocated : (next_reception_id ids).1 ≡ ok s.reception.reception_id
    pub transmission_is : s.reception.transmission_id ≡ transmission_id_of desired
    pub receiver_is : s.reception.receiver_node_id ≡ receiver_of desired
    pub arrival_is : s.reception.arrival_at ≡ first_arrival_at desired
    pub signal_is : s.desired_signal ≡ desired

  -- The session that is made of a decoding.
  abbrev pub session_with : ReceivedSignal W → Decoded W → ReceptionId → ReceptionSession W
  session_with desired x id = record {
    reception = record {
      reception_id = id;
      transmission_id = transmission_id_of desired;
      receiver_node_id = receiver_of desired;
      arrival_at = first_arrival_at desired;
    };
    desired_signal = desired;
    receiver_window = x.receiver_window;
    noise_observation = x.noise_observation;
    decode_result = x.decode_result;
  }

  module _ (noise : INoiseFieldProvider W) (rx_phy : IRxPhy W) where
    -- A success of `ProcessReceivedSignal` returns a session whose reception has the id that the
    -- allocator gives and the transmission, the receiver and the first arrival of the signal. The
    -- ledger contains the signal, the window is what `Build` returns for it, and its desired signal
    -- has a positive width. The noise observation answers a query at the projected position of the
    -- receiver and covers the signal exactly in time, and the decode result is the answer of the PHY
    -- to that window and observation, of the transmission, the packet and the receiver of the window.
    pub process_received_signal-IsReceptionOf :
        (ids : CommunicationIdAllocator) (desired : ReceivedSignal W)
        (ledger : InFlightSignalLedger W) (working_state : CycleWorkingState W)
        (s : ReceptionSession W)
        → (process_received_signal noise rx_phy ids desired ledger working_state).1 ≡ ok s
        → IsReceptionOf ids desired s
          × IsDecoded noise rx_phy desired ledger working_state s.receiver_window
              s.noise_observation s.decode_result
    unfolding process_received_signal
    process_received_signal-IsReceptionOf ids desired ledger working_state s h =
        elim (Result-cases (decode noise rx_phy desired ledger working_state)) [
          | inr (e, f) ↦ absurd (ground arith)
          | inl (x, f) ↦
              let (id, fresh, made) =
                >>=-eq-ok (next_reception_id ids).1 (λ id. ok (session_with desired x id))
                  (rw (f, process_received_signal) at h) in
              subst
                (λ y.
                  IsReceptionOf ids desired y
                  × IsDecoded noise rx_phy desired ledger working_state y.receiver_window
                      y.noise_observation y.decode_result)
                (ok-injective made)
                (
                  record {
                    allocated = fresh;
                    transmission_is = refl;
                    receiver_is = refl;
                    arrival_is = refl;
                    signal_is = refl;
                  },
                  decode-IsDecoded noise rx_phy desired ledger working_state x f,
                )
        ]
