-- ===== src/Proxy/Decrypt/Bytes.antt =====
-- The size of the encrypted envelope.
use archetype_proxy_server.Prelude.{ℕ, ◌+◌, ◌*◌, ◌≤◌, arith}
use archetype_proxy_server.Proxy.Decrypt.{pre_decrypt_cap, usize_max}

-- The bytes of `{"ciphertext":"<hex>"}` around a plaintext of `n` bytes: a tag of 16 bytes, each
-- byte in two digits, and 17 bytes of JSON.
abbrev pub envelope_size : ℕ → ℕ
envelope_size n = 2 * (n + 16) + 17

-- The cap admits the envelope of every body within the limit that a `usize` can count at all, and
-- exceeds the envelope of the greatest such body by at most 47 bytes.
pub pre_decrypt_cap_bounds :
    (max n : ℕ)
    → n ≤ max
    → envelope_size n ≤ usize_max
    → (envelope_size n ≤ pre_decrypt_cap max) × (pre_decrypt_cap max ≤ envelope_size max + 47)
unfolding pre_decrypt_cap
pre_decrypt_cap_bounds max n h k = (omega arith, omega arith)
