-- ===== src/Compile/Lands.antt =====
-- Where the branches and the threads of a whole program go once `Compile` (compile.h) is done.
use temp_esas.Prelude.{
  ℕ, ◌^◌, ◌<◌, ◌≡◌, ◌∙◌, ap, sym, arith, List, [], ◌∷◌, ◌++◌, Option, some, ◌>>=◌, length,
  get_elem?,
}
use temp_esas.Arm64.Isa.{word_target, movz, decode}
use temp_esas.Arm64.Backend.{gen_movz_x}
use temp_esas.Arm64.Encoding.Arith.{decode-gen_immediates}
use temp_esas.Evm2.Types.{Op, Arg, Instruction}
use temp_esas.Frontend.Patch.{patched}
use temp_esas.Frontend.Patch.Lands.{patched-gen_movz_x}
use temp_esas.Compile.Instr.{Interface, compile_op}
use temp_esas.Compile.Program.{compile}
use temp_esas.Compile.Branches.{IsBranch, branch_target}
use temp_esas.Compile.Fixups.Cases.{BranchesTo, compile_op-Points}
use temp_esas.Compile.Fixups.{Points}
use temp_esas.Compile.Starts.{create_thread-Points}
use temp_esas.Compile.Resolve.{Resolved, compile-Resolved}

abbrev pub BranchLands :
    Interface → List Instruction → List Instruction → Instruction → ℕ → List ℕ → Type 0
BranchLands iface instructions xs i t code =
    (n : ℕ) × (target : ℕ) × Resolved iface instructions xs i t n target
    × ((get_elem? code n >>= word_target n) ≡ some target)

-- When `Compile` succeeds on a program and gives fewer than 2^18 words, then for each jump,
-- jumpEqual and call of the program, the words of that instruction contain a branch whose target
-- is where the code for an instruction at the bit address it names begins.
pub compile-BranchLands :
    (iface : Interface) (xs ys : List Instruction) (i : Instruction) (t : ℕ) (code : List ℕ)
    → compile iface (xs ++ i ∷ ys) ≡ some code
    → length code < 2 ^ 18
    → BranchesTo i.opcode i.args t
    → BranchLands iface (xs ++ i ∷ ys) xs i t code
compile-BranchLands iface xs ys i t code e small b =
    let (n, w, w', target, resolved, branch, turned, at, hn, ht) =
      compile-Resolved iface xs ys i t code IsBranch e
        (compile_op-Points iface i.opcode i.args t b) in
    (
      n,
      target,
      resolved,
      ap (λ (r : Option ℕ). r >>= word_target n) (at ∙ sym turned)
          ∙ branch_target w n target branch (omega arith) (omega arith),
    )

-- The instruction that starts a thread, at a bit address of up to sixteen bits.
pub data CreatesThread : Op → List Arg → ℕ → Type 0 where
  creates : (t a : Arg) → t.address < 2 ^ 16 → CreatesThread Op.create_thread (t ∷ a ∷ []) t.address

creates-Points :
    (iface : Interface) (op : Op) (args : List Arg) (t : ℕ)
    → CreatesThread op args t
    → (t < 2 ^ 16) × Points (λ w. w ≡ gen_movz_x 0 t 0) (compile_op iface op args) t
creates-Points iface _ _ _ (creates t a h) = (h, create_thread-Points iface t a h)

abbrev pub ThreadStarts :
    Interface → List Instruction → List Instruction → Instruction → ℕ → List ℕ → Type 0
ThreadStarts iface instructions xs i t code =
    (n : ℕ) × (target : ℕ) × Resolved iface instructions xs i t n target
    × ((get_elem? code n >>= decode) ≡ some (movz 64 0 0 target))

-- When `Compile` succeeds on a program and gives fewer than 2^16 words, then for each
-- createThread of the program at a bit address below 2^16, the words of that instruction contain
-- a load into x0 of the index at which the code for an instruction at that bit address begins.
pub compile-ThreadStarts :
    (iface : Interface) (xs ys : List Instruction) (i : Instruction) (t : ℕ) (code : List ℕ)
    → compile iface (xs ++ i ∷ ys) ≡ some code
    → length code < 2 ^ 16
    → CreatesThread i.opcode i.args t
    → ThreadStarts iface (xs ++ i ∷ ys) xs i t code
compile-ThreadStarts iface xs ys i t code e small b =
    let (ht, points) = creates-Points iface i.opcode i.args t b in
    let (n, w, w', target, resolved, movz_t, turned, at, hn, in_code) =
      compile-Resolved iface xs ys i t code (λ v. v ≡ gen_movz_x 0 t 0) e points in
    let written : patched w n target ≡ some (gen_movz_x 0 target 0) =
      ap (λ (v : ℕ). patched v n target) movz_t
      ∙ patched-gen_movz_x 0 t 0 n target (omega arith) ht (omega arith) (omega arith) in
    let (d, _, _, _, _, _) =
      decode-gen_immediates 0 0 target 0 0 (omega arith) (omega arith) (omega arith) (omega arith)
        (omega arith) in
    (n, target, resolved, ap (λ (r : Option ℕ). r >>= decode) (at ∙ sym turned ∙ written) ∙ d)
