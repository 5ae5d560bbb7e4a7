-- ===== src/Tests/Data.antt =====
-- Concrete messages, connections, and stand-ins for the ciphers, codecs and texts that the program
-- takes from elsewhere.
use localsend_switchboard.Prelude.{
  ℕ, zero, suc, ◌≡◌, refl, subst, arith, take-append, drop-append, Bool, true, false, Option, none,
  some, [], ◌∷◌, ◌++◌, Bytes, Bytes-discrete, codes, take, drop, length, All-append,
}
use localsend_switchboard.Entities.{DiscoveryMessage, SwitchMessage, LocalSendClientInfo}
use localsend_switchboard.Services.SwitchLounge.{Store}
use localsend_switchboard.Services.TcpConnectionHub.{TcpConn, ConnWithChan, TcpConnectionHub}
use localsend_switchboard.Prelude.Assoc
use localsend_switchboard.Services.TcpConnectionHub.Inv.{Inv}
use localsend_switchboard.Services.PassiveForwarder.Forward.{Points}
use localsend_switchboard.Services.TcpCore.{Proto, IsCodec}
use localsend_switchboard.Services.PassiveForwarder.{Json}
use localsend_switchboard.Std.Channel.{Channel}
use localsend_switchboard.Std.Ip.{IpText}
use localsend_switchboard.Std.Strconv.{format_uint}
use localsend_switchboard.Services.PassiveForwarder.Target.{
  IsHostByte, IsHostText, format_uint-IsHostByte,
}
use localsend_switchboard.Utils.Cipher.{Aead, IsAead}

abbrev pub client : LocalSendClientInfo
client = record {
  alias = codes "Desk";
  version = codes "2.1";
  device_model = [];
  device_type = codes "desktop";
  fingerprint = codes "f0";
  port = 53317;
  protocol = codes "https";
  download = false;
}

abbrev pub with_ttl_of : ℕ → DiscoveryMessage
with_ttl_of ttl = record {
  switch_id = codes "n1";
  discovery_seq = 7;
  discovery_ttl = ttl;
  alias = codes "Desk";
  version = codes "2.1";
  device_model = [];
  device_type = codes "desktop";
  fingerprint = codes "f0";
  port = 53317;
  protocol = codes "https";
  download = false;
  original_addr = 10 ∷ 0 ∷ 0 ∷ 9 ∷ [];
}

-- One message with the TTL, from a peer.
abbrev pub message_of : ℕ → SwitchMessage
message_of ttl = record { source_addr = some (codes "p"); payload = some (with_ttl_of ttl) }

abbrev pub store_of : ℕ → Store
store_of ttl = message_of ttl ∷ []

abbrev pub conn_p : TcpConn
conn_p = record { socket = 3; remote_addr = codes "p" }

abbrev pub conn_q : TcpConn
conn_q = record { socket = 4; remote_addr = codes "q" }

abbrev pub p_entry : ConnWithChan
p_entry = record { conn = conn_p; send_chan = 0 }

abbrev pub q_entry : ConnWithChan
q_entry = record { conn = conn_q; send_chan = 1 }

abbrev pub fresh_chan : Channel ℕ
fresh_chan = record { buffer = []; capacity = 32; is_closed = false }

abbrev pub hub_p : TcpConnectionHub
hub_p = record { conns = (codes "p", p_entry) ∷ []; chans = fresh_chan ∷ []; closed_sockets = [] }

abbrev pub hub_pq : TcpConnectionHub
hub_pq = record {
  conns = (codes "p", p_entry) ∷ (codes "q", q_entry) ∷ [];
  chans = fresh_chan ∷ fresh_chan ∷ [];
  closed_sockets = [];
}

-- Addresses are their own texts.
abbrev pub dotted : Bytes → Bytes
dotted [] = []
dotted (b ∷ bs) = b'.' ∷ (format_uint b ++ dotted bs)

abbrev pub plain_text : IpText
plain_text = record { parse_ip = λ s. some s; ip_string = λ ip. ip }

-- One client can be written and read.
abbrev pub one_json : Json
one_json = record { marshal = λ i. some (codes "{}"); unmarshal = λ b. some client }

-- A tag of one byte, and a nonce of two.
abbrev pub tagging : Aead
tagging = record {
  nonce_size = 2;
  seal = λ nonce text. 0 ∷ text;
  open_sealed = λ nonce sealed. some (drop 1 sealed);
}

abbrev pub flag : Bool → ℕ
flag true = 1
flag false = 0

abbrev pub is_set : ℕ → Bool
is_set zero = false
is_set (suc n) = true

-- A string behind its length; the first string, and what stands behind it.
abbrev pub field : Bytes → Bytes → Bytes
field b rest = length b ∷ (b ++ rest)

abbrev pub first_field : Bytes → Bytes
first_field [] = []
first_field (n ∷ b) = take n b

abbrev pub behind : Bytes → Bytes
behind [] = []
behind (n ∷ b) = drop n b

-- The strings of a message.
abbrev pub strings : DiscoveryMessage → Bytes
strings m = field m.switch_id (
    field m.alias (
      field m.version (
        field m.device_model (
          field m.device_type
            (field m.fingerprint (field m.protocol (field m.original_addr [])))))))

abbrev pub with_strings : ℕ → ℕ → ℕ → Bool → Bytes → DiscoveryMessage
with_strings seq ttl port download b0 =
    let b1 = behind b0 in
    let b2 = behind b1 in
    let b3 = behind b2 in
    let b4 = behind b3 in
    let b5 = behind b4 in
    let b6 = behind b5 in
    let b7 = behind b6 in
    record {
      switch_id = first_field b0;
      discovery_seq = seq;
      discovery_ttl = ttl;
      alias = first_field b1;
      version = first_field b2;
      device_model = first_field b3;
      device_type = first_field b4;
      fingerprint = first_field b5;
      port = port;
      protocol = first_field b6;
      download = download;
      original_addr = first_field b7;
    }

abbrev pub read_message : Bytes → Option DiscoveryMessage
read_message (seq ∷ ttl ∷ port ∷ d ∷ rest) = some (with_strings seq ttl port (is_set d) rest)
read_message _ = none

-- A codec: the numbers, then the strings.
abbrev pub fields : Proto
fields = record {
  marshal = λ m. some (m.discovery_seq ∷ m.discovery_ttl ∷ m.port ∷ flag m.download ∷ strings m);
  unmarshal = read_message;
}

is_set-flag : (d : Bool) → is_set (flag d) ≡ d
is_set-flag true = refl
is_set-flag false = refl

read_back :
    (m : DiscoveryMessage)
    → fields.unmarshal (m.discovery_seq ∷ m.discovery_ttl ∷ m.port ∷ flag m.download ∷ strings m)
      ≡ some m
read_back m = simp (drop-append, take-append, is_set-flag)

pub fields-IsCodec : IsCodec fields
fields-IsCodec m b e =
    let same : m.discovery_seq ∷ m.discovery_ttl ∷ m.port ∷ flag m.download ∷ strings m ≡ b = cc in
    subst (λ x. fields.unmarshal x ≡ some m) same (read_back m)

pub tagging-IsAead : IsAead tagging
tagging-IsAead = record {
  opens = λ nonce text e. refl;
  overhead = 1;
  sealed_length = λ nonce text. omega arith;
}

pub hub_p-Inv : Inv hub_p
unfolding Assoc.get?
hub_p-Inv = record {
  is_map = (refl, tt);
  bounded = omega arith;
  entries = ((refl, (fresh_chan, refl, refl, refl)), tt);
  distinct = (tt, tt);
}

pub hub_pq-Inv : Inv hub_pq
unfolding Assoc.get? Bytes-discrete
hub_pq-Inv = record {
  is_map = (refl, (refl, tt));
  bounded = omega arith;
  entries = ((refl, (fresh_chan, refl, refl, refl)), ((refl, (fresh_chan, refl, refl, refl)), tt));
  distinct = ((λ e. absurd (omega (arith, e)), tt), (tt, tt));
}

pub store_of-Points : (ttl : ℕ) → Points (store_of ttl) 0 (with_ttl_of ttl)
store_of-Points ttl = record { message = message_of ttl; found = refl; payload = refl }

-- An address as the numbers of its bytes, each behind a dot.
abbrev pub dotted_text : IpText
dotted_text = record { parse_ip = λ s. some s; ip_string = dotted }

pub dotted_text-IsHostText : IsHostText dotted_text
dotted_text-IsHostText [] = tt
dotted_text-IsHostText (b ∷ bs) = (
  (omega arith, omega arith, omega arith, omega arith),
  All-append IsHostByte (format_uint b) (dotted bs) (format_uint-IsHostByte b)
      (dotted_text-IsHostText bs),
)
