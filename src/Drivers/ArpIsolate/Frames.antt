-- ===== src/Drivers/ArpIsolate/Frames.antt =====
-- The frames, as a host that follows RFC 826 reads them.
use net_soldier.Prelude.{
  ℕ, ◌≡◌, refl, Bool, ◌&&◌, Option, none, some, [], ◌∷◌, ◌==◌, take, drop, length, str_eq,
  if◌then◌else◌,
}
use net_soldier.Drivers.ArpIsolate.{Bytes, frame, uint16, copied}

-- A reply: who sent it in which frame, and that `ip` is at `mac`.
pub record ArpReply : Type 0 where
  pub frame_to : Bytes
  pub frame_from : Bytes
  pub mac : Bytes
  pub ip : Bytes
  pub target_mac : Bytes
  pub target_ip : Bytes

slice : ℕ → ℕ → Bytes → Bytes
slice i n bs = take n (drop i bs)

-- The types of an ARP reply about IPv4 over Ethernet.
is_reply : Bytes → Bool
unfolding slice
is_reply bs =
    length bs == 42
    && str_eq (slice 12 2 bs) (8 ∷ 6 ∷ [])
    && str_eq (slice 14 8 bs) (0 ∷ 1 ∷ 8 ∷ 0 ∷ 6 ∷ 4 ∷ 0 ∷ 2 ∷ [])

unfoldable pub read_reply : Bytes → Option ArpReply
unfolding slice is_reply
read_reply bs =
    if is_reply bs
    then some (record {
      frame_to = slice 0 6 bs;
      frame_from = slice 6 6 bs;
      mac = slice 22 6 bs;
      ip = slice 28 4 bs;
      target_mac = slice 32 6 bs;
      target_ip = slice 38 4 bs;
    })
    else none

pub data IsMac : Bytes → Type 0 where
  is_mac : (a b c d e f : ℕ) → IsMac (a ∷ b ∷ c ∷ d ∷ e ∷ f ∷ [])

pub data IsIpv4 : Bytes → Type 0 where
  is_ipv4 : (a b c d : ℕ) → IsIpv4 (a ∷ b ∷ c ∷ d ∷ [])

-- The frame of a reply reads back as that reply: the sender's address is at the sender's hardware
-- address, told to the destination, from this host's own interface.
pub read-frame :
    (hardware dst_mac sender_ip sender_mac target_ip : Bytes)
    → IsMac hardware
    → IsMac dst_mac
    → IsIpv4 sender_ip
    → IsMac sender_mac
    → IsIpv4 target_ip
    → read_reply (frame hardware dst_mac sender_ip sender_mac target_ip)
      ≡ some (record {
        frame_to = dst_mac;
        frame_from = hardware;
        mac = sender_mac;
        ip = sender_ip;
        target_mac = dst_mac;
        target_ip = target_ip;
      })
unfolding read_reply frame uint16 copied slice is_reply str_eq
read-frame _ _ _ _ _ (is_mac a b c d e f) (is_mac a' b' c' d' e' f') (is_ipv4 g h i j)
      (is_mac k l m n o p) (is_ipv4 q r s t) =
    refl
