-- ===== src/Interrupt.antt =====
-- pintos/src/threads/interrupt.c: the interrupt level, and the frame round the handler of an
-- external interrupt. The controller's port writes are hardware and have no counterpart here.
use operation_system.Base.{Bool, true, false, not, Option, some, assert, ◌>>=◌, ◌>>◌, if◌then◌else◌}
use operation_system.Kernel.{Kernel, IntrLevel, intr_off, intr_on, is_off}

unfoldable pub intr_context : Kernel → Bool
intr_context k = k.in_external_intr

unfoldable pub intr_enable : Kernel → Option (IntrLevel × Kernel)
unfolding intr_context
intr_enable k = do
  assert (not (intr_context k))
  some (k.intr_level, record k { intr_level = intr_on })

unfoldable pub intr_disable : Kernel → IntrLevel × Kernel
intr_disable k = (k.intr_level, record k { intr_level = intr_off })

-- The returned level is dropped, as every caller modelled here does.
unfoldable pub intr_set_level : IntrLevel → Kernel → Option Kernel
unfolding intr_enable intr_disable
intr_set_level intr_off k = some (intr_disable k).1
intr_set_level intr_on k = do r ← intr_enable k; some r.1

unfoldable pub intr_yield_on_return : Kernel → Option Kernel
unfolding intr_context
intr_yield_on_return k = do assert (intr_context k); some (record k { yield_on_return = true })

-- intr_handler for an external interrupt: the handler of its vector, and thread_yield() on the way
-- out if the handler asked for it.
unfoldable pub intr_handler :
    (handler : Kernel → Option Kernel) (thread_yield : Kernel → Option Kernel)
    → Kernel
    → Option Kernel
unfolding intr_context
intr_handler handler thread_yield k = do
  assert (is_off k.intr_level)
  assert (not (intr_context k))
  k1 ← handler (record k { in_external_intr = true; yield_on_return = false })
  assert (is_off k1.intr_level)
  assert (intr_context k1)
  let k2 = record k1 { in_external_intr = false }
  if k2.yield_on_return then thread_yield k2 else some k2
