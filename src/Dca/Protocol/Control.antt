-- ===== src/Dca/Protocol/Control.antt =====
-- Requests and responses of the control port, against their layout.
use mmwcli.Base.{
  ℕ, ◌+◌, ◌*◌, ◌%◌, ◌≤◌, ◌<◌, ◌≡◌, refl, ◌∙◌, List, [], ◌∷◌, ◌++◌, ok, pos, length, slice, drop,
  le_bytes, le_value, ℤ, negsuc, ltb, ltb_ℤ, err, inl, inr, Bool-cases, ◌||◌, true, ◌⊎◌,
  le_value-le_bytes, le_bytes-le_value, length-append, All, IsByte, arith, take-append, drop-append,
  drop-add, sub_self_left,
}
use mmwcli.Dca.Protocol.{
  control_header, control_footer, build_request, Response, parse_response, FpgaConfig,
  default_fpga_config, build_fpga_config, validate_raw_capture_fpga_config, build_record_config,
  packet_delay, record_packet_size, maximum_payload_size,
}

-- The eight bytes of a response.
abbrev pub response_bytes : Response → List ℕ
response_bytes r =
    le_bytes 2 control_header
    ++ (le_bytes 2 r.command ++ (le_bytes 2 r.status ++ le_bytes 2 control_footer))

le_pair : (a b : ℕ) → a < 256 → b < 256 → le_bytes 2 (le_value (a ∷ b ∷ [])) ≡ a ∷ b ∷ []
le_pair a b ha hb = le_bytes-le_value (a ∷ b ∷ []) (ha, (hb, tt))

-- The bytes of a response with a uint16 command and a uint16 status parse as that response.
pub parse_response-bytes :
    (r : Response) → r.command < 65536 → r.status < 65536 → parse_response (response_bytes r) ≡ ok r
unfolding parse_response le_bytes le_value
parse_response-bytes r hc hs = ground arith

-- A datagram of bytes that parses as a response is exactly the eight bytes of that response.
pub parse_response_sound :
    (packet : List ℕ) (r : Response)
    → All IsByte packet
    → parse_response packet ≡ ok r
    → packet ≡ response_bytes r
unfolding parse_response
parse_response_sound (a ∷ b ∷ c ∷ d ∷ e ∷ f ∷ g ∷ h ∷ []) r bs p =
    ground (arith, le_pair a b, le_pair c d, le_pair e f, le_pair g h)
parse_response_sound _ r bs p = ground arith

-- What BuildRequest writes of a payload within the limit.
request_bytes : ℕ → List ℕ → List ℕ
request_bytes command payload =
    le_bytes 2 control_header
    ++ (le_bytes 2 command
        ++ (le_bytes 2 (length payload) ++ (payload ++ le_bytes 2 control_footer)))

build_request-bytes :
    (command : ℕ) (payload packet : List ℕ)
    → build_request command payload ≡ ok packet
    → (packet ≡ request_bytes command payload) × (length payload ≤ maximum_payload_size)
unfolding build_request request_bytes
build_request-bytes command payload packet h = ground (arith, small (length payload))
  where
    small : (n : ℕ) → n ≤ 504 → n % 65536 ≡ n
    small n h = omega arith

uint16_value : (v : ℕ) → v < 65536 → le_value (le_bytes 2 v) ≡ v
uint16_value v h = le_value-le_bytes 2 v h

footer :
    (command : ℕ) (payload : List ℕ)
    → le_value (drop (6 + length payload) (request_bytes command payload)) ≡ control_footer
unfolding request_bytes le_bytes le_value
footer command payload =
    rw (drop-add 6 (length payload) (request_bytes command payload))
      (rw (drop-append payload (le_bytes 2 control_footer)))

-- Where BuildRequest of a uint16 command succeeds, the payload is within the limit and the packet is
-- eight bytes longer; the header, the command, the payload's length, the payload and the footer stand
-- in it in this order.
pub build_request_layout :
    (command : ℕ) (payload packet : List ℕ)
    → command < 65536
    → build_request command payload ≡ ok packet
    → (length packet ≡ 8 + length payload)
      × (length payload ≤ maximum_payload_size)
      × (le_value (slice 0 2 packet) ≡ control_header)
      × (le_value (slice 2 4 packet) ≡ command)
      × (le_value (slice 4 6 packet) ≡ length payload)
      × (slice 6 (6 + length payload) packet ≡ payload)
      × (le_value (drop (6 + length payload) packet) ≡ control_footer)
build_request_layout command payload packet hc h =
    let (e, small) = build_request-bytes command payload packet h in
    rw e (
      unfold request_bytes le_bytes in
          omega (arith, length-append payload (le_bytes 2 control_footer)),
      small,
      unfold request_bytes le_bytes le_value in refl,
      unfold request_bytes le_bytes in uint16_value command hc,
      unfold request_bytes le_bytes in uint16_value (length payload) (omega arith),
      sub_self_left 6 (length payload) (drop 6 (request_bytes command payload))
          ∙ (unfold request_bytes le_bytes in take-append payload (le_bytes 2 control_footer)),
      footer command payload,
    )

-- A raw capture takes exactly one FPGA configuration, which is the default one, and BuildFPGAConfig
-- writes its six values as six bytes.
pub raw_capture_fpga_config :
    (config : FpgaConfig)
    → validate_raw_capture_fpga_config config ≡ ok tt
    → (config ≡ default_fpga_config) × (build_fpga_config config ≡ ok (1 ∷ 2 ∷ 1 ∷ 2 ∷ 3 ∷ 30 ∷ []))
unfolding validate_raw_capture_fpga_config build_fpga_config
raw_capture_fpga_config config h = let e : config ≡ default_fpga_config = ground arith in (e, rw e)

-- Of every delay, negative ones included, BuildRecordConfig passes exactly those from 5 to 500
-- microseconds: it then writes the packet size, the delay in ticks of which 125 make a microsecond,
-- never cut to 16 bits, and two zero bytes. Every other delay is refused with the error of the delay.
pub build_record_config_exact :
    (delay : ℤ)
    → ((n : ℕ) × (delay ≡ pos n)
        × (5 ≤ n)
        × (n ≤ 500)
        × (build_record_config delay
            ≡ ok (le_bytes 2 record_packet_size ++ (le_bytes 2 (125 * n) ++ (0 ∷ 0 ∷ []))))
        × (le_value (le_bytes 2 (125 * n)) ≡ 125 * n))
      ⊎ (((ltb_ℤ delay (pos 5) || ltb_ℤ (pos 500) delay) ≡ true)
          × (build_record_config delay ≡ err packet_delay))
unfolding build_record_config
build_record_config_exact (negsuc n) = inr (ground arith, refl)
build_record_config_exact (pos n) = elim (Bool-cases (ltb n 5 || ltb 500 n)) [
  | inl out ↦ inr (ground arith, rw out refl)
  | inr within ↦
      let same : n * 125 % 65536 ≡ 125 * n = ground arith in
      inl (
        n,
        refl,
        ground arith,
        ground arith,
        rw (within, same) refl,
        le_value-le_bytes 2 (125 * n) (ground arith),
      )
]
