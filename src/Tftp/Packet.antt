-- ===== src/Tftp/Packet.antt =====
-- The packets of main/ota-tftp.c: the constants, the reads from a `netbuf`, and the packets sent.
use blackmagic_espidf.Base.{ℕ, ◌+◌, ◌*◌, ◌/◌, ◌%◌, List, [], ◌∷◌, ◌++◌, length, get_or}
use blackmagic_espidf.Base.Text.{codes}

-- lwIP's `err_t`; `err` stands for its other errors, by their numbers.
pub data ErrT : Type 0 where
  err_ok err_timeout err_val err_if err_use : ErrT
  err : ℕ → ErrT

-- A `netbuf`: the segments of one datagram.
abbrev pub Netbuf : Type 0
Netbuf = List (List ℕ)

-- The datagram.
abbrev pub bytes : Netbuf → List ℕ
bytes [] = []
bytes (seg ∷ segs) = seg ++ bytes segs

abbrev pub netbuf_len : Netbuf → ℕ
netbuf_len b = length (bytes b)

-- `netbuf_copy_partial` leaves what lies behind the datagram's end as it was, `junk`.
abbrev read_u8 : ℕ → Netbuf → ℕ → ℕ
read_u8 junk b offs = get_or (bytes b) offs junk

-- `ntohs` of the two bytes at `offs`.
abbrev pub read_u16_n : ℕ → Netbuf → ℕ → ℕ
read_u16_n junk b offs = read_u8 junk b offs * 256 + read_u8 junk b (offs + 1)

-- `htons` of an `int`, as the two bytes in memory.
abbrev u16_n : ℕ → List ℕ
u16_n n = n / 256 % 256 ∷ n % 256 ∷ []

abbrev pub op_rrq : ℕ
op_rrq = 1

abbrev pub op_wrq : ℕ
op_wrq = 2

abbrev pub op_data : ℕ
op_data = 3

abbrev op_ack : ℕ
op_ack = 4

abbrev op_error : ℕ
op_error = 5

abbrev pub err_file_not_found : ℕ
err_file_not_found = 1

abbrev pub err_illegal : ℕ
err_illegal = 4

abbrev pub firmware_file : List ℕ
firmware_file = codes "firmware.bin"

abbrev pub octet_mode : List ℕ
octet_mode = codes "octet"

-- What `tftp_send_ack`, `tftp_send_error` and `tftp_send_rrq` hand to `netconn_send`.
abbrev pub ack_packet : ℕ → List ℕ
ack_packet block = u16_n op_ack ++ u16_n block

abbrev pub error_packet : ℕ → List ℕ → List ℕ
error_packet code msg = u16_n op_error ++ u16_n code ++ msg ++ 0 ∷ []

abbrev pub rrq_packet : List ℕ → List ℕ
rrq_packet filename = u16_n op_rrq ++ (filename ++ 0 ∷ (octet_mode ++ 0 ∷ []))
