-- ===== src/Join/Store.antt =====
-- The in-memory store of join handles
-- (src/platform/runtime/job_store/backends/in_memory_join_store.py), as a dict of handles.
use vai_core.Prelude.{ℕ, List, map, Option, none, some, String, ◌==◌, if◌then◌else◌, ◌≡◌, refl, ◌∙◌}
use vai_core.Prelude.Dict.{Dict, get, put, remove, values, get-put, get-remove}
use vai_core.Join.{JoinHandle}

unfoldable pub save_handle : Dict JoinHandle → JoinHandle → Dict JoinHandle
unfolding put
save_handle store handle = put store handle.join_handle_id handle

unfoldable pub get_handle : Dict JoinHandle → String → Option JoinHandle
unfolding get
get_handle store handle_id = get store handle_id

-- The id and the time of creation of every handle.
unfoldable pub list_handles : Dict JoinHandle → List (String × ℕ)
list_handles store = map (λ h. (h.join_handle_id, h.created_at)) (values store)

unfoldable pub delete_handle : Dict JoinHandle → String → Dict JoinHandle
unfolding remove
delete_handle store handle_id = remove store handle_id

-- A handle that was saved is found under its id until it is deleted, whatever else the store holds.
pub get_handle-delete_handle :
    (store : Dict JoinHandle) (handle : JoinHandle) (deleted id : String)
    → get_handle (delete_handle (save_handle store handle) deleted) id ≡ (
        if deleted == id
        then none
        else if handle.join_handle_id == id
        then some handle
        else get_handle store id)
unfolding get_handle delete_handle save_handle
get_handle-delete_handle store handle deleted id =
    get-remove (put store handle.join_handle_id handle) deleted id
    ∙ rw (get-put store handle.join_handle_id id handle) refl
