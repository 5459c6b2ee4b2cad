-- ===== src/Vfs.antt =====
-- kernel/fs/vfs.h and the state of kernel/fs/vfs.c. A `VfsNode *` is an address in a heap of nodes, 0
-- for NULL. A command is a function of the state; `fault` is a read or write through NULL or through
-- an address that holds no node, and a write behind the end of `mountpoints`.
pub mod Parse
pub mod Node
pub mod Open
mod Tests
use best_os.Common.{
  ℕ, ◌≡◌, refl, ◌≢◌, Bool, true, false, Option, none, some, List, [], ◌∷◌, ◌==◌, if◌then◌else◌,
}
use best_os.Str.{Text}

abbrev pub Ptr : Type 0
Ptr = ℕ

abbrev pub null : Ptr
null = 0

pub data VfsNodeType : Type 0 where
  file directory : VfsNodeType

pub record VfsNode : Type 0 where
  pub type : VfsNodeType
  pub name : Text
  pub parent : Ptr
  pub points_to : Ptr
  pub children : List Ptr
  pub mountpoint : Ptr
  pub st_size : ℕ
  pub cursor : ℕ
  pub o_mode : ℕ
  pub address : ℕ
  pub internal_address : ℕ
  pub init : Bool

-- The three values of `Filesystem` in the kernel: which handlers its function pointers are.
pub data Filesystem : Type 0 where
  tmpfs devfs ustar_fs : Filesystem

pub record Mountpoint : Type 0 where
  pub fs : Filesystem
  pub root : Ptr

pub record Vfs : Type 0 where
  pub nodes : Ptr → Option VfsNode
  pub mounts : Ptr → Option Mountpoint
  pub mountpoints : List Mountpoint
  pub root : Ptr
  pub errno : ℕ

pub data Run (A : Type 0) : Type 0 where
  ok : A → Vfs → Run A
  fault : Run A

abbrev pub Cmd : Type 0 → Type 0
Cmd A = Vfs → Run A

abbrev pub pure : {A : Type 0} → A → Cmd A
pure = ok

abbrev pub on_ok : {A B : Type 0} → Run A → (A → Cmd B) → Run B
on_ok (ok a s) k = k a s
on_ok fault k = fault

infixl 5 ◌>>=◌ ◌>>◌
abbrev pub ◌>>=◌ : {A B : Type 0} → Cmd A → (A → Cmd B) → Cmd B
m >>= k = λ s. on_ok (m s) k

abbrev pub ◌>>◌ : {A B : Type 0} → Cmd A → Cmd B → Cmd B
m >> n = m >>= λ _. n

-- Equal continuations after the same result.
pub on_ok-congr :
    {A B : Type 0} (r : Run A) (k l : A → Cmd B)
    → ((a : A) (s : Vfs) → k a s ≡ l a s)
    → on_ok r k ≡ on_ok r l
on_ok-congr (ok a s) k l same = same a s
on_ok-congr fault k l same = refl

abbrev pub of_option : {A : Type 0} → Option A → Cmd A
of_option none = λ s. fault
of_option (some a) = ok a

unfoldable pub put : {A : Type 0} → (Ptr → Option A) → Ptr → A → Ptr → Option A
put h p n a = if a == p then some n else h a

-- `*p`.
unfoldable pub load : Ptr → Cmd VfsNode
load p s = if p == null then fault else of_option (s.nodes p) s

-- The write of a whole node at an address that is known to hold one.
unfoldable pub store_node : Ptr → VfsNode → Cmd (Unit {0})
store_node p n s = ok tt (record s { nodes = put s.nodes p n })

unfoldable pub set_errno : ℕ → Cmd (Unit {0})
set_errno e s = ok tt (record s { errno = e })

-- A write of fields of `*p`.
unfoldable pub modify : Ptr → (VfsNode → VfsNode) → Cmd (Unit {0})
modify p f = do n ← load p; store_node p (f n)

abbrev pub enoent : ℕ
enoent = 1043

abbrev pub eisdir : ℕ
eisdir = 1029

abbrev pub einval : ℕ
einval = 1026

-- What `malloc` returns for a node and for a mount point: the address, and what the memory holds,
-- which the code does not clear.
pub record Malloc : Type 0 where
  pub node_at : Vfs → Ptr
  pub node_bytes : Vfs → VfsNode
  pub mount_at : Vfs → Ptr
  pub mount_bytes : Vfs → Mountpoint
  pub buffer_at : Vfs → ℕ → ℕ

-- What `malloc` promises in a state: a returned block is not NULL and not in use.
pub record MallocLaws (m : Malloc) (s : Vfs) : Type 0 where
  pub node_ne_null : m.node_at s ≢ null
  pub node_unused : s.nodes (m.node_at s) ≡ none
