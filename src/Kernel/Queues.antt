-- ===== src/Kernel/Queues.antt =====
-- The queues of the kernel's state: PCBs by priority (kernel/queue.c), messages
-- (kernel/msg_queue.c) and free memory blocks (kernel/memory_queue.c).
use door_rtos.Base.{ℕ, Bool, ◌==◌, if◌then◌else◌, Ptr, null, write}
use door_rtos.Queue.{init_queue, is_empty, enqueue, dequeue_fifo, dequeue_lifo, search_dequeue}
use door_rtos.MetaQueue.{dequeue_by_priority, enqueue_by_priority, remove_element_by_priority}
use door_rtos.Kernel.Monad.{walk_fuel, done, crashed, M, pure, gets, modify, lift, ◌>>◌}

unfoldable pub enqueue_ready : Ptr → M (Unit {0})
enqueue_ready pcb =
    lift (λ k. enqueue_by_priority k.pcbs k.ready_queue pcb k.pcb_next)
      λ (mq, next). modify λ k. record k { ready_queue = mq; pcb_next = next }

unfoldable pub dequeue_ready : M Ptr
dequeue_ready =
    lift (λ k. dequeue_by_priority walk_fuel k.ready_queue k.pcb_next)
      λ (pcb, mq, next). (modify λ k. record k { ready_queue = mq; pcb_next = next }) >> pure pcb

unfoldable pub enqueue_memory_wait : Ptr → M (Unit {0})
enqueue_memory_wait pcb =
    lift (λ k. enqueue_by_priority k.pcbs k.memory_wait_queue pcb k.pcb_next)
      λ (mq, next). modify λ k. record k { memory_wait_queue = mq; pcb_next = next }

unfoldable pub dequeue_memory_wait : M Ptr
dequeue_memory_wait =
    lift (λ k. dequeue_by_priority walk_fuel k.memory_wait_queue k.pcb_next)
      λ (pcb, mq, next).
        (modify λ k. record k { memory_wait_queue = mq; pcb_next = next }) >> pure pcb

unfoldable pub remove_ready : Ptr → M ℕ
remove_ready pcb =
    lift (λ k. remove_element_by_priority walk_fuel k.pcbs pcb k.ready_queue k.pcb_next)
      λ (code, mq, next). (modify λ k. record k { ready_queue = mq; pcb_next = next }) >> pure code

unfoldable pub remove_memory_wait : Ptr → M ℕ
remove_memory_wait pcb =
    lift (λ k. remove_element_by_priority walk_fuel k.pcbs pcb k.memory_wait_queue k.pcb_next)
      λ (code, mq, next).
        (modify λ k. record k { memory_wait_queue = mq; pcb_next = next }) >> pure code

-- A queue of messages is used through its address.
unfoldable pub init_msg_queue : Ptr → M (Unit {0})
init_msg_queue a k =
    if a == null
    then crashed
    else done tt (record k { mess_queues = write k.mess_queues a init_queue })

unfoldable pub is_msgq_empty : Ptr → M Bool
is_msgq_empty a k = if a == null then crashed else done (is_empty (k.mess_queues a)) k

unfoldable pub enqueue_message : (q e : Ptr) → M (Unit {0})
enqueue_message a e k =
    if a == null
    then crashed
    else lift (λ k. enqueue (k.mess_queues a) e k.mess_next)
        (λ (q, next).
          modify λ k. record k { mess_queues = write k.mess_queues a q; mess_next = next })
        k

unfoldable pub dequeue_message_lifo : Ptr → M Ptr
dequeue_message_lifo a k =
    if a == null
    then crashed
    else (let (e, q) = dequeue_lifo (k.mess_queues a) k.mess_next in
        done e (record k { mess_queues = write k.mess_queues a q }))

unfoldable pub dequeue_message_fifo : Ptr → M Ptr
dequeue_message_fifo a k =
    if a == null
    then crashed
    else lift (λ k. dequeue_fifo walk_fuel (k.mess_queues a) k.mess_next)
        (λ (e, q, next).
          (modify λ k. record k { mess_queues = write k.mess_queues a q; mess_next = next })
          >> pure e)
        k

unfoldable pub search_dequeue_message : (q e : Ptr) → M Ptr
search_dequeue_message a e k =
    if a == null
    then crashed
    else lift (λ k. search_dequeue walk_fuel (k.mess_queues a) e k.mess_next)
        (λ (e, q, next).
          (modify λ k. record k { mess_queues = write k.mess_queues a q; mess_next = next })
          >> pure e)
        k

-- `free_mem_q` is always passed as the queue of free blocks.
unfoldable pub init_free_memory_queue : M (Unit {0})
init_free_memory_queue = modify λ k. record k { free_mem_q = init_queue }

unfoldable pub is_free_memory_queue_empty : M Bool
is_free_memory_queue_empty = gets λ k. is_empty k.free_mem_q

unfoldable pub enqueue_free_memory_queue : Ptr → M (Unit {0})
enqueue_free_memory_queue e =
    lift (λ k. enqueue k.free_mem_q e k.block_next)
      λ (q, next). modify λ k. record k { free_mem_q = q; block_next = next }

unfoldable pub dequeue_memory_block_fifo : M Ptr
dequeue_memory_block_fifo =
    lift (λ k. dequeue_fifo walk_fuel k.free_mem_q k.block_next)
      λ (e, q, next). (modify λ k. record k { free_mem_q = q; block_next = next }) >> pure e

unfoldable pub dequeue_memory_block_lifo : M Ptr
dequeue_memory_block_lifo k =
    let (e, q) = dequeue_lifo k.free_mem_q k.block_next in done e (record k { free_mem_q = q })
