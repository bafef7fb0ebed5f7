-- ===== src/Model/Naming.antt =====
-- `serverPrefix`, the server names of `Build`, and `backendName` (hash/fnv's 32-bit FNV-1a).
use Prim.Native.Nat.{bit_xor}
use mathlib.Core.List.{foldl}
use kubetraffic.Prelude.{
  ℕ, ◌*◌, ◌%◌, Str, bytes, is_nil, decimal, hex_digits, List, ◌∷◌, ◌++◌, if◌then◌else◌,
}

abbrev pub server_prefix : Str → Str
server_prefix version = if is_nil version then bytes "ep" else version

-- `fmt.Sprintf("%s-%d", serverPrefix(version), j)`
unfoldable pub server_name : Str → ℕ → Str
server_name version j = server_prefix version ++ (bytes "-" ++ decimal j)

fnv_step : ℕ → ℕ → ℕ
fnv_step h b = (bit_xor h b * 16777619) % 4294967296

unfoldable pub fnv32a : List ℕ → ℕ
unfolding fnv_step
fnv32a = foldl fnv_step 2166136261

unfoldable pub backend_name : Str → Str → Str
unfolding fnv32a
backend_name host path = bytes "kt_be_" ++ hex_digits 8 (fnv32a (host ++ 0 ∷ path))
