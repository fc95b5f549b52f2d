-- ===== src/ListHead.antt =====
-- The doubly linked lists of include/linux/list.h, which the lottery run queue is kept in. They are
-- not part of this repository: `ListApi` names the operations that kernel/sched/lottery.c calls on
-- `rq->ltr.queue` and on the entries `p->ltr.list`, with their documented behaviour.
mod Model
pub mod Api
pub use Api.{ListApi}
pub use Model.{model}
