-- ===== src/Process/StackImage/Vectors.antt =====
-- The two arrays of pointers below the auxiliary vector.
use best_os.Common.{
  ℕ, ◌+◌, ◌-◌, ◌*◌, ◌^◌, ◌≤◌, ◌<◌, ◌≡◌, ◌∙◌, subst, arith, some, List, [], ◌∷◌, length,
}
use best_os.Mem.{Memory}
use best_os.Mem.Words.{read64}
use best_os.Str.{Text}
use best_os.Process.StackImage.{Image, push_pointers}
use best_os.Process.StackImage.Strings.{Kept, Strings, total, Strings-Kept, read64-Kept}
use best_os.Process.StackImage.Pointers.{Pointers, Array, push_pointers-Array}

pub Pointers-Kept :
    (lo mid : ℕ) (m w : Memory) (a st : ℕ) (ss : List Text)
    → Kept lo mid m w
    → mid ≤ a
    → Pointers m a st ss
    → Pointers w a st ss
Pointers-Kept lo mid m w a st [] kept below h = tt
Pointers-Kept lo mid m w a st (s ∷ ss) kept below h = (
  read64-Kept lo mid a m w kept (omega arith) ∙ h.0,
  Pointers-Kept lo mid m w (a + 8) (st - (length s + 1)) ss kept (omega arith) h.1,
)

-- The two arrays, in the words from `base` on.
pub record Vectors (base rsp : ℕ) (args envs : List Text) (m : Memory) : Type 0 where
  pub argv : Pointers m base (rsp - total envs) args
  pub argv_end : read64 (base + 8 * length args) m ≡ 0
  pub envp : Pointers m (base + 8 + 8 * length args) rsp envs
  pub envp_end : read64 (base + 8 + 8 * length args + 8 * length envs) m ≡ 0

-- A change below them leaves them.
pub Vectors-Kept :
    (lo mid base rsp : ℕ) (args envs : List Text) (m w : Memory)
    → Kept lo mid m w
    → mid ≤ base
    → Vectors base rsp args envs m
    → Vectors base rsp args envs w
Vectors-Kept lo mid base rsp args envs m w kept below v = record {
  argv = Pointers-Kept lo mid m w base (rsp - total envs) args kept below v.argv;
  argv_end = read64-Kept lo mid (base + 8 * length args) m w kept (omega arith) ∙ v.argv_end;
  envp = Pointers-Kept lo mid m w (base + 8 + 8 * length args) rsp envs kept (omega arith) v.envp;
  envp_end =
      read64-Kept lo mid (base + 8 + 8 * length args + 8 * length envs) m w kept (omega arith)
      ∙ v.envp_end;
}

-- They end at the stack pointer of `s`.
pub record Arrays (base rsp : ℕ) (args envs : List Text) (s t : Image) : Type 0 where
  pub stack : t.stack ≡ base
  pub vectors : Vectors base rsp args envs t.memory
  pub kept : Kept base s.stack s.memory t.memory

Arrays-join :
    (lo top base rsp : ℕ) (args envs : List Text) (s p q : Image)
    → base + 8 * (length args + length envs + 2) ≡ s.stack
    → s.count ≡ rsp
    → Pointers p.memory (s.stack - 8 * (length envs + 1)) s.count envs
    → Array (length envs) (total envs) s p
    → Pointers q.memory (p.stack - 8 * (length args + 1)) p.count args
    → Array (length args) (total args) p q
    → Arrays base rsp args envs s q
Arrays-join lo top base rsp args envs s p q place count ep eps qp qps =
    let mid : p.stack ≡ base + 8 + 8 * length args = omega (arith, eps.stack) in
    let low : p.stack - 8 * (length args + 1) ≡ base = omega (arith, mid) in
    let kept2 : Kept base p.stack p.memory q.memory = λ b out. qps.kept b (omega (arith, low)) in
    let up : s.stack - 8 * (length envs + 1) ≡ p.stack = omega (arith, mid) in
    let env_p : Pointers p.memory (base + 8 + 8 * length args) rsp envs =
      subst (λ (c : ℕ). Pointers p.memory (base + 8 + 8 * length args) c envs) count
        (subst (λ (x : ℕ). Pointers p.memory x s.count envs) (up ∙ mid) ep) in
    let last : s.stack - 8 ≡ base + 8 + 8 * length args + 8 * length envs = omega arith in
    record {
      stack = omega (arith, qps.stack, low);
      vectors = record {
        argv =
            subst (λ (c : ℕ). Pointers q.memory base c args) (omega (arith, eps.count))
              (subst (λ (x : ℕ). Pointers q.memory x p.count args) low qp);
        argv_end =
            subst (λ (x : ℕ). read64 x q.memory ≡ 0) {x = p.stack - 8} {y = base + 8 * length args}
              (omega (arith, mid)) qps.marker;
        envp =
            Pointers-Kept base p.stack p.memory q.memory (base + 8 + 8 * length args) rsp envs kept2
              (omega (arith, mid)) env_p;
        envp_end =
            subst (λ (x : ℕ). read64 x q.memory ≡ 0) last
              (read64-Kept base p.stack (s.stack - 8) p.memory q.memory kept2 (omega (arith, mid))
                ∙ eps.marker);
      };
      kept = λ b out. kept2 b (omega (arith, mid)) ∙ eps.kept b (omega arith);
    }

pub push_both :
    (fuel lo top argv envp base rsp : ℕ) (args envs : List Text) (s : Image)
    → Strings fuel lo top s.memory argv args
    → Strings fuel lo top s.memory envp envs
    → s.stack ≤ top
    → top < 2 ^ 64
    → base + 8 * (length args + length envs + 2) ≡ s.stack
    → lo ≤ base
    → s.count ≡ rsp
    → total envs + total args ≤ rsp
    → rsp < 2 ^ 64
    → (p : Image) × (q : Image) × (push_pointers fuel (length envs) envp s ≡ some p)
      × (push_pointers fuel (length args) argv p ≡ some q)
      × Arrays base rsp args envs s q
push_both fuel lo top argv envp base rsp args envs s ha he below small place room count sum fits =
    let (p, run_p, ep, eps) =
      push_pointers-Array fuel lo top envp envs s he (omega arith) below small (omega arith)
        (omega arith) in
    let (q, run_q, qp, qps) =
      push_pointers-Array fuel lo top argv args p
        (Strings-Kept fuel lo top s.memory p.memory argv args (λ b out. eps.kept b (omega arith))
          ha)
        (omega (arith, eps.stack)) (omega (arith, eps.stack)) small (omega (arith, eps.count))
        (omega (arith, eps.count)) in
    (p, q, run_p, run_q, Arrays-join lo top base rsp args envs s p q place count ep eps qp qps)
