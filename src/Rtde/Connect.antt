-- ===== src/Rtde/Connect.antt =====
-- What `connect` leaves behind.
use digital_twin_based_on_un.Common.{ℕ, ◌≡◌, ◌⊎◌, Bool, true, false, List, [], ◌∷◌, ◌++◌, arith}
use digital_twin_based_on_un.Common.Floats.{Floats}
use digital_twin_based_on_un.Rtde.{
  frame, request_protocol_version, setup_outputs_type, start_type, protocol_version,
}
use digital_twin_based_on_un.Rtde.Socket.{Source, disconnect, is_connected}
use digital_twin_based_on_un.Rtde.Handshake.{
  Net, negotiate_version, setup_outputs, start, handshake, finish_connect, connect,
}

abbrev pub version_request : List ℕ
version_request = frame request_protocol_version (0 ∷ protocol_version ∷ [])

abbrev pub start_request : List ℕ
start_request = frame start_type []

module _ {F : Type 0} ⦃fl : Floats F⦄ (frequency : F) (rtde_field : List ℕ) where
  abbrev pub setup_request : List ℕ
  setup_request = frame setup_outputs_type (fl.pack_double frequency ++ rtde_field)

  -- How a call of `connect` may end: connected with an empty buffer after the three requests, or
  -- not connected after the first few of them.
  abbrev pub Outcome : Source × Bool × List (List ℕ) → Type 0
  Outcome (s', answer, sent) =
      ((answer ≡ true)
        × (is_connected s' ≡ true)
        × (s'.buf ≡ [])
        × (sent ≡ version_request ∷ setup_request ∷ start_request ∷ []))
      ⊎ ((answer ≡ false)
          × (is_connected s' ≡ false)
          × ((sent ≡ [])
              ⊎ ((sent ≡ version_request ∷ [])
                  ⊎ ((sent ≡ version_request ∷ setup_request ∷ [])
                      ⊎ (sent ≡ version_request ∷ setup_request ∷ start_request ∷ [])))))

  -- A call of `connect` by a source that is not connected, however the network behaves: either it
  -- returns true, is connected with an empty buffer and has sent the version, setup and start
  -- requests in this order, or it returns false, is not connected and has sent a beginning of
  -- these requests.
  pub connect_lem :
      (s : Source) (net : Net)
      → is_connected s ≡ false
      → Outcome (connect frequency rtde_field s net)
  unfolding connect handshake finish_connect negotiate_version setup_outputs start disconnect
      is_connected
  connect_lem s net h = ground arith
