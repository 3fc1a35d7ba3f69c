-- ===== src/Contracts/Channel/Paths.antt =====
-- What a query and a response that pass their checks are.
use ns3_bellhop_platform.Prelude.{◌≡◌, arith}
use ns3_bellhop_platform.Contracts.Errors.{ok}
use ns3_bellhop_platform.Contracts.Doubles.{Double}
use ns3_bellhop_platform.Contracts.Channel.{
  ChannelQuery, ChannelFieldResponse, create_query, validate_channel_field_response_identity,
}

module _ {W : Type 0} ⦃d : Double W⦄ where
  -- A query that passes the checks is the one given.
  pub create_query-ok : (q q' : ChannelQuery W) → create_query q ≡ ok q' → q' ≡ q
  unfolding create_query
  create_query-ok q q' h = ground arith

module _ {W : Type 0} where
  pub identity-ok :
      (q : ChannelQuery W) (r : ChannelFieldResponse W)
      → validate_channel_field_response_identity q r ≡ ok tt
      → (r.transmission_id ≡ q.transmission_id) × (r.receiver_node_id ≡ q.receiver_node_id)
  unfolding validate_channel_field_response_identity
  identity-ok q r h = ground arith
