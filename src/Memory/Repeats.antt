-- ===== src/Memory/Repeats.antt =====
-- The first write of a turn wins: repeated calls of latency_lab/memory.py change nothing.
use sales_girl_voice_agent.Common.{◌≡◌, true, arith}
use sales_girl_voice_agent.Memory.Turns.{MemoryTurn, finish_turn}

finish_turn_again :
    (t : MemoryTurn) → (finish_turn true (finish_turn true t).0).0 ≡ (finish_turn true t).0
unfolding finish_turn
finish_turn_again t = ground arith
