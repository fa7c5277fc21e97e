-- ===== src/Compiler/Permits.antt =====
-- compiler.go: which tasks hold a permit of the semaphore.
pub mod Count
pub mod Steps
pub mod Bound
use protocompile.Prelude.{Bool, true, false, Option, none, some, String}
use protocompile.Compiler.{Phase, Task, Results, resolving, checking, releasing, linking, finished}

-- The phases between an `Acquire` and the `Release` after it.
unfoldable pub holds : Phase → Bool
holds resolving = true
holds (checking todo stack) = true
holds releasing = true
holds linking = true
holds (finished ok held) = held
holds p = false

unfoldable pub holding : Results → String → Bool
unfolding holds
holding m x = elim (m x) [ none ↦ false | some r ↦ holds r.phase ]
