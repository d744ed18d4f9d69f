-- ===== src/Pool.antt =====
-- The handle pools of mofs_file.c and mofs_dir.c beside the volume. A handle is its index in the pool.
use mofs.Base.{ℕ, update}
use mofs.Base.Run.{Run, ok, err, Cmd}

pub record Opened (S H : Type 0) : Type 0 where
  pub fs : S
  pub pool : ℕ → H

module _ {S H : Type 0} where
  abbrev pub on_run : {A : Type 0} → Opened S H → Run S A → Run (Opened S H) A
  on_run o (ok a s) = ok a (record o { fs = s })
  on_run o (err e s) = err e (record o { fs = s })

  -- A call that leaves the handles alone.
  abbrev pub on_fs : {A : Type 0} → Cmd S A → Cmd (Opened S H) A
  on_fs m = λ o. on_run o (m o.fs)

  abbrev pub put_handle : ℕ → H → Opened S H → Opened S H
  put_handle i h o = record o { pool = update o.pool i h }

  abbrev pub also_run :
      {A : Type 0} → Run (Opened S H) A → (Opened S H → Opened S H) → Run (Opened S H) A
  also_run (ok a o) f = ok a (f o)
  also_run (err e o) f = err e (f o)

  -- `ret = m(); f(); return ret;`
  abbrev pub also :
      {A : Type 0} → Cmd (Opened S H) A → (Opened S H → Opened S H) → Cmd (Opened S H) A
  also m f = λ o. also_run (m o) f
